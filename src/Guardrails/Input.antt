-- ===== src/Guardrails/Input.antt =====
-- `check_input` of agent/guardrails.py.
use agentic_rag_backend.Base.{
  ℕ, ◌≤◌, ◌<◌, ◌≡◌, ap, ◌↔◌, Bool, true, false, Option, none, some, [], ltb, arith, if◌then◌else◌,
  length,
}
use agentic_rag_backend.Base.Text.{Text, Unicode, codes, strip}
use agentic_rag_backend.Base.Regex.{search, sub}
use agentic_rag_backend.Guardrails.Patterns.{injection_re, abuse_re, role_marker_re}

-- The tunables, read from the environment.
pub record Tunables : Type 0 where
  pub max_input_chars : ℕ
  pub min_input_chars : ℕ
  pub guardrails_enabled : Bool
  pub enforce_roman_urdu : Bool

abbrev pub default_tunables : Tunables
default_tunables = record {
  max_input_chars = 4000;
  min_input_chars = 1;
  guardrails_enabled = true;
  enforce_roman_urdu = false;
}

pub data BlockReason : Type 0 where
  empty_input too_long prompt_injection abuse : BlockReason

unfoldable pub msg_for : BlockReason → Text
msg_for empty_input = codes "I didn't receive a question. Please type your message again."
msg_for too_long = codes "Your message is too long. Please shorten it and try again."
msg_for prompt_injection =
    codes
      "Sorry — I can only help with questions about the organization's knowledge base. Please ask a question related to its documents."
msg_for abuse = codes "Please keep the conversation respectful so I can assist you better."

-- `GuardrailResult`
pub record GuardrailResult : Type 0 where
  pub allowed : Bool
  pub reason : Option BlockReason
  pub user_message : Option Text
  pub sanitized_input : Option Text

abbrev pub blocked : BlockReason → GuardrailResult
blocked r = record {
  allowed = false;
  reason = some r;
  user_message = some (msg_for r);
  sanitized_input = none;
}

abbrev pub passed : Text → GuardrailResult
passed t = record { allowed = true; reason = none; user_message = none; sanitized_input = some t }

module _ (u : Unicode) (k : Tunables) where
  unfoldable pub sanitize : Text → Text
  sanitize t = sub u (role_marker_re u) [] t

  unfoldable pub check_input : Text → GuardrailResult
  check_input text =
      let stripped = strip u text in
      if k.guardrails_enabled
      then (if ltb (length stripped) k.min_input_chars
          then blocked empty_input
          else if ltb k.max_input_chars (length stripped)
          then blocked too_long
          else if search u (injection_re u) stripped
          then blocked prompt_injection
          else if search u (abuse_re u) stripped
          then blocked abuse
          else passed (sanitize stripped))
      else passed text

  -- What the screen lets through, of a stripped message.
  pub record IsClean (stripped : Text) : Type 0 where
    pub long_enough : k.min_input_chars ≤ length stripped
    pub short_enough : length stripped ≤ k.max_input_chars
    pub no_injection : search u (injection_re u) stripped ≡ false
    pub no_abuse : search u (abuse_re u) stripped ≡ false

  -- With the guardrails on, a message is allowed exactly when its stripped text is within the
  -- length limits and neither the injection nor the abuse patterns are found in it.
  pub check_input-allowed_iff :
      (text : Text)
      → k.guardrails_enabled ≡ true
      → ((check_input text).allowed ≡ true) ↔ IsClean (strip u text)
  unfolding check_input
  check_input-allowed_iff text on = (λ h. ground arith, λ c. ground arith)

  -- The faults that a stripped message can have, and the order in which they are looked for.
  abbrev pub HasFault : BlockReason → Text → Type 0
  HasFault empty_input stripped = length stripped < k.min_input_chars
  HasFault too_long stripped = k.max_input_chars < length stripped
  HasFault prompt_injection stripped = search u (injection_re u) stripped ≡ true
  HasFault abuse stripped = search u (abuse_re u) stripped ≡ true

  abbrev pub rank : BlockReason → ℕ
  rank empty_input = 0
  rank too_long = 1
  rank prompt_injection = 2
  rank abuse = 3

  -- A blocked message has no fault that comes before its reason.
  blocked-rank :
      (text : Text) (r b : BlockReason)
      → k.guardrails_enabled ≡ true
      → check_input text ≡ blocked r
      → rank b < rank r
      → ¬ HasFault b (strip u text)
  unfolding check_input
  blocked-rank text empty_input b on h lt f = absurd (omega arith)
  blocked-rank text too_long empty_input on h lt f =
      let why = ap (λ (q : GuardrailResult). q.reason) h in absurd (ground arith)
  blocked-rank text too_long too_long on h lt f = absurd (omega arith)
  blocked-rank text too_long prompt_injection on h lt f = absurd (omega arith)
  blocked-rank text too_long abuse on h lt f = absurd (omega arith)
  blocked-rank text prompt_injection empty_input on h lt f =
      let why = ap (λ (q : GuardrailResult). q.reason) h in absurd (ground arith)
  blocked-rank text prompt_injection too_long on h lt f =
      let why = ap (λ (q : GuardrailResult). q.reason) h in absurd (ground arith)
  blocked-rank text prompt_injection prompt_injection on h lt f = absurd (omega arith)
  blocked-rank text prompt_injection abuse on h lt f = absurd (omega arith)
  blocked-rank text abuse empty_input on h lt f =
      let why = ap (λ (q : GuardrailResult). q.reason) h in absurd (ground arith)
  blocked-rank text abuse too_long on h lt f =
      let why = ap (λ (q : GuardrailResult). q.reason) h in absurd (ground arith)
  blocked-rank text abuse prompt_injection on h lt f =
      let why = ap (λ (q : GuardrailResult). q.reason) h in absurd (ground arith)
  blocked-rank text abuse abuse on h lt f = absurd (omega arith)

  -- A blocked message has the fault.
  blocked-HasFault :
      (text : Text) (r : BlockReason)
      → k.guardrails_enabled ≡ true
      → check_input text ≡ blocked r
      → HasFault r (strip u text)
  unfolding check_input
  blocked-HasFault text empty_input on h =
      let why = ap (λ (q : GuardrailResult). q.reason) h in ground arith
  blocked-HasFault text too_long on h =
      let why = ap (λ (q : GuardrailResult). q.reason) h in ground arith
  blocked-HasFault text prompt_injection on h =
      let why = ap (λ (q : GuardrailResult). q.reason) h in ground arith
  blocked-HasFault text abuse on h =
      let why = ap (λ (q : GuardrailResult). q.reason) h in ground arith

  abbrev IsFirst : BlockReason → Text → Type 0
  IsFirst r stripped =
      HasFault r stripped × ((b : BlockReason) → rank b < rank r → ¬ HasFault b stripped)

  -- The first fault of a message is what it is blocked for.
  first_fault-blocked :
      (text : Text) (r : BlockReason)
      → k.guardrails_enabled ≡ true
      → IsFirst r (strip u text)
      → check_input text ≡ blocked r
  unfolding check_input
  first_fault-blocked text empty_input on (f, before) = ground arith
  first_fault-blocked text too_long on (f, before) =
      let a = before empty_input (omega arith) in ground arith
  first_fault-blocked text prompt_injection on (f, before) =
      let a = before empty_input (omega arith) in
      let b = before too_long (omega arith) in ground arith
  first_fault-blocked text abuse on (f, before) =
      let a = before empty_input (omega arith) in
      let b = before too_long (omega arith) in
      let c = before prompt_injection (omega arith) in ground arith

  -- With the guardrails on, a message is blocked for a reason, with the message that belongs to
  -- it, exactly when its stripped text has that fault and none of those that come before: too
  -- short, too long, an injection, abuse.
  pub check_input-blocked_iff :
      (text : Text) (r : BlockReason)
      → k.guardrails_enabled ≡ true
      → (check_input text ≡ blocked r) ↔ (
          HasFault r (strip u text)
          × ((b : BlockReason) → rank b < rank r → ¬ HasFault b (strip u text)))
  check_input-blocked_iff text r on = (
    λ h. (blocked-HasFault text r on h, λ b. blocked-rank text r b on h),
    λ first. first_fault-blocked text r on first,
  )
