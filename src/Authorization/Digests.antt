-- ===== src/Authorization/Digests.antt =====
-- `canon.digest` of a value and `canon.hex_digest_of_text` of its canonical text, which `canon.py` keeps
-- apart: the one guards against surrogates, the other does not.
use verify_run.Base.{◌≡◌, refl, not, any, some, codes, ◌++◌}
use verify_run.Base.Attempt.{returned, require, ◌>>=◌}
use verify_run.Authorization.{
  Host, digest, hex_digest_of_text, canonical_text, as_text, not_canonical,
}
use verify_run.Canon
use verify_run.Canon.{Written, canonicalize, is_surrogate}
use verify_run.Canon.Encodable.{canonicalize-no_surrogate}
use verify_run.Canon.Render.{render}
use verify_run.Canon.Stack.{canonicalize-render}
use verify_run.Value.{Value}

-- The digest of a value is that of its canonical text: the guard of `hex_digest_of_text` refuses no
-- canonical text, and where there is none both raise the same.
pub digest-hex_digest_of_text :
    (host : Host) (v : Value)
    → digest host v ≡ (
        canonical_text v >>= λ t.
        hex_digest_of_text host t >>= λ h. returned (codes "sha256:" ++ h))
unfolding digest hex_digest_of_text canonical_text
digest-hex_digest_of_text host v = go (render v) (canonicalize-render v)
  where
    go :
        (w : Written)
        → canonicalize v ≡ some w
        → ((as_text (canonicalize v)) >>= λ t.
            returned (codes "sha256:" ++ host.sha256 (host.encode t)))
          ≡ (as_text (canonicalize v) >>= λ t.
              (require (not (any is_surrogate t)) (not_canonical Canon.surrogate_not_permitted)
                >>= λ _. returned (host.sha256 (host.encode t)))
              >>= λ h. returned (codes "sha256:" ++ h))
    go (Canon.text t) h = rw (h, as_text, canonicalize-no_surrogate v t h) refl
    go (Canon.refused e) h = rw (h, as_text) refl
