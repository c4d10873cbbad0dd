-- ===== src/Fingerprints.antt =====
-- src/ddsleuth/fingerprints.py: the form of run-local key fingerprints.
use ddsleuth.Prelude.{Bool, String, concat, starts_with}

abbrev pub fingerprint_scheme : String
fingerprint_scheme = "hmac-sha256-run-local-v1"

-- `fingerprint.startswith(FINGERPRINT_SCHEME + ":")`
unfoldable pub is_fingerprint : String → Bool
is_fingerprint fingerprint = starts_with fingerprint (concat fingerprint_scheme ":")
