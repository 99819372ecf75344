-- ===== src/Tests/Binding.antt =====
-- The key binding on a concrete request.
use a2a_fun.Prelude.{◌≡◌, refl, ◌↔◌, none, some, ok}
use a2a_fun.Phase5.Binding.{
  Request, compute_peer_key_fingerprint, bind_peer_key_fingerprint, bind_iff, bound, Binding,
  IsBinding,
}

abbrev key_request : Request
key_request = record {
  peer_actor_id = some "p";
  peer_public_key_pem = some "pem";
  expected = none;
  already = none;
}

abbrev key_bound : Binding
key_bound = record { status = bound; peer_key_fpr = "sha256:pem"; patch = some "sha256:pem" }

bind_iff_example :
    (bind_peer_key_fingerprint (λ s. s) key_request ≡ ok key_bound)
    ↔ IsBinding (compute_peer_key_fingerprint (λ s. s) "pem") none none key_bound
bind_iff_example = bind_iff (λ s. s) key_request "p" "pem" key_bound refl refl
