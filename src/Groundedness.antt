-- ===== src/Groundedness.antt =====
-- agent/groundedness.py: the judge's verdict on an answer, and what is done with it. Chunks are
-- given by their contents. The judge (a language model) is a parameter.
pub mod Policy
use agentic_rag_backend.Base.{
  ℕ, zero, suc, ◌+◌, Bool, true, false, ◌&&◌, ◌||◌, not, Option, none, some, List, [], ◌∷◌, ◌++◌,
  map, leb, if◌then◌else◌, length, take, keep_if, any,
}
use agentic_rag_backend.Base.Text.{Text, Unicode, codes, strip, is_empty, text_eq, join}
use agentic_rag_backend.Citations.{
  count_words, validate_citations, looks_like_abstention, abstain_message, Reason, cited_ok,
  fabricated, exempt_non_answer, uncited_substantive_answer,
}

-- The settings, read from the environment.
pub record Settings : Type 0 where
  pub enabled : Bool
  pub remediation : Bool
  pub reverify : Bool
  pub min_words : ℕ
  pub max_chunks : ℕ

abbrev pub default_settings : Settings
default_settings = record {
  enabled = true;
  remediation = true;
  reverify = false;
  min_words = 12;
  max_chunks = 8;
}

abbrev pub status_grounded : Text
status_grounded = codes "grounded"

abbrev pub status_remediated : Text
status_remediated = codes "remediated"

abbrev pub status_abstained : Text
status_abstained = codes "ungrounded_abstained"

abbrev pub status_skipped : Text
status_skipped = codes "skipped"

abbrev pub status_error : Text
status_error = codes "error_failopen"

-- `gstatus in CACHEABLE_STATUSES`
unfoldable pub is_cacheable : Text → Bool
is_cacheable s =
    text_eq s status_grounded || text_eq s status_remediated || text_eq s status_skipped

-- `GroundednessVerdict`
pub record Verdict : Type 0 where
  pub grounded : Bool
  pub reason : Text
  pub unsupported_claims : List Text
  pub corrected : Text

-- The judge's JSON object, with the defaults for absent keys filled in.
pub record JudgeReply : Type 0 where
  pub grounded : Bool
  pub reason : Text
  pub unsupported_claims : List Text
  pub corrected : Text

-- The judge's answer to a user message; `none` if the call or the reading of its reply raises.
abbrev pub Judge : Type 0
Judge = Text → Option JudgeReply

abbrev pub plain_verdict : Text → Verdict
plain_verdict reason = record {
  grounded = true;
  reason = reason;
  unsupported_claims = [];
  corrected = [];
}

unfoldable pub is_ok : Reason → Bool
is_ok cited_ok = true
is_ok _ = false

-- The tests on a corrected answer.
unfoldable pub is_salvaged : Unicode → Text → ℕ → Bool
is_salvaged u corrected n_chunks =
    not (is_empty corrected)
    && is_ok (validate_citations u corrected n_chunks).1
    && not (looks_like_abstention u corrected)

abbrev pub no_chunks : List Text → Bool
no_chunks [] = true
no_chunks (_ ∷ _) = false

module _ (u : Unicode) (settings : Settings) (show_index : ℕ → Text) (judge : Judge) where
  -- The numbered sources: `[i] ` and the first 700 characters of the chunk.
  unfoldable pub numbered : ℕ → List Text → List Text
  numbered i [] = []
  numbered i (c ∷ cs) =
      (codes "[" ++ (show_index i ++ (codes "] " ++ take 700 c))) ∷ numbered (suc i) cs

  unfoldable pub judge_message : Text → List Text → Text
  judge_message answer chunks =
      codes "SOURCES:"
      ++ (10 ∷ join (10 ∷ 10 ∷ []) (numbered 1 (take settings.max_chunks chunks)))
      ++ (10 ∷ 10 ∷ codes "ANSWER:")
      ++ (10 ∷ answer)

  unfoldable pub applies : Text → List Text → Bool
  applies answer chunks =
      settings.enabled
      && not (no_chunks chunks)
      && leb settings.min_words (count_words u false answer)

  unfoldable pub verdict_of : JudgeReply → Verdict
  verdict_of reply =
      let reason = take 200 reply.reason in
      record {
        grounded = reply.grounded;
        reason = (if is_empty reason then codes "grounded" else reason);
        unsupported_claims =
            map (take 300) (keep_if (λ c. not (is_empty c)) reply.unsupported_claims);
        corrected = strip u reply.corrected;
      }

  unfoldable pub assess : Text → List Text → Verdict
  assess answer chunks =
      if applies answer chunks
      then elim (judge (judge_message answer chunks)) [
        | none ↦ plain_verdict status_error
        | some reply ↦ verdict_of reply
      ]
      else plain_verdict status_skipped

  -- `is_grounded`
  unfoldable pub is_grounded : Text → List Text → Bool × Text
  is_grounded answer chunks =
      let verdict = assess answer chunks in (verdict.grounded, verdict.reason)

  unfoldable pub enforce : Text → List Text → Text × Text
  enforce answer chunks =
      let verdict = assess answer chunks in
      let corrected = strip u verdict.corrected in
      let abstained : Text × Text = (abstain_message, status_abstained) in
      if verdict.grounded
      then (
        answer,
        (if text_eq verdict.reason status_skipped || text_eq verdict.reason status_error
            then verdict.reason
            else status_grounded),
      )
      else if settings.remediation && is_salvaged u corrected (length chunks)
      then (if settings.reverify && not (assess corrected chunks).grounded
          then abstained
          else (corrected, status_remediated))
      else abstained
