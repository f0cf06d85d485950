-- ===== src/Host/Payload.antt =====
-- runtime/worker/live.py, PayloadResolver.candidate_text: the text that is sent for an approved
-- candidate. What the control plane answers and SHA-256 are parameters.
use tdaudiibncba.Common.{
  String, ◌≡◌, ◌≢◌, sym, ap, ◌∙◌, inl, inr, Bool, false, not, ◌&&◌, ◌==◌, Option, none, some,
  if◌then◌else◌, string_eq, Bool-cases, eq_of_beq,
}

-- A candidate as `get_candidate` gives it.
pub record Candidate : Type 0 where
  pub status : String
  pub content : String

-- The text, or a TransportError of the kind CONTENT.
pub data Resolved : Type 0 where
  text : String → Resolved
  bad_status hash_mismatch : Resolved

-- `expected_hash and digest != expected_hash`
abbrev pub mismatches : Option String → String → Bool
mismatches none digest = false
mismatches (some expected) digest = not (expected == "") && not (digest == expected)

module _ (sha256 : String → String) where
  unfoldable pub candidate_text : Candidate → Option String → Resolved
  candidate_text cand expected_hash =
      if not (cand.status == "approved")
      then bad_status
      else if mismatches expected_hash (sha256 cand.content)
      then hash_mismatch
      else text cand.content

  -- A text that is resolved against a hash that is not empty has that hash.
  pub candidate_text_bound :
      (cand : Candidate) (expected t : String)
      → (expected == "") ≡ false
      → candidate_text cand (some expected) ≡ text t
      → sha256 t ≡ expected
  unfolding candidate_text
  candidate_text_bound cand expected t full h = elim (Bool-cases (cand.status == "approved")) [
    | inr p ↦ absurd (refused (rw p at h))
    | inl p ↦ elim (Bool-cases (sha256 cand.content == expected)) [
      | inr q ↦ absurd (mismatched (rw (p, full, q) at h))
      | inl q ↦
          ap sha256 (sym (same (rw (p, full, q) at h))) ∙ eq_of_beq (sha256 cand.content) expected q
    ]
  ]
    where
      refused : bad_status ≢ text t
      refused e = cc

      mismatched : hash_mismatch ≢ text t
      mismatched e = cc

      same : {a b : String} → text a ≡ text b → a ≡ b
      same e = cc
