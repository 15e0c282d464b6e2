-- ===== src/Tests/Sample.antt =====
-- Concrete instances of what the model leaves open: ASCII tables, a server that keeps its data in
-- functions, and a simple coding of messages.
use agentic_rag_backend.Base.{
  ℕ, ◌+◌, ◌-◌, ◌≡◌, refl, subst, inl, inr, ◌⊎◌, Bool, true, ◌&&◌, ◌||◌, Option, none, some, List,
  [], ◌∷◌, ltb, leb, ◌==◌, if◌then◌else◌, Bool-cases,
}
use agentic_rag_backend.Base.Text.{Text, Unicode, codes, text_eq}
use agentic_rag_backend.Redis.{Redis, RedisLaws, after_commands}
use agentic_rag_backend.Memory.{Json}
use agentic_rag_backend.Retrieval.{Floats}

abbrev is_digit : ℕ → Bool
is_digit c = leb b'0' c && leb c b'9'

abbrev is_letter : ℕ → Bool
is_letter c = (leb b'A' c && leb c b'Z') || (leb b'a' c && leb c b'z')

abbrev lower_ascii : ℕ → ℕ
lower_ascii c = if leb b'A' c && leb c b'Z' then c + 32 else c

abbrev upper_ascii : ℕ → ℕ
upper_ascii c = if leb b'a' c && leb c b'z' then c - 32 else c

-- The tables, for the characters of ASCII.
abbrev pub ascii : Unicode
ascii = record {
  is_space = λ c. c == b' ' || (leb 9 c && leb c 13);
  is_word = λ c. is_letter c || is_digit c || c == b'_';
  digit = λ c. if is_digit c then some (c - b'0') else none;
  lower_char = λ c. lower_ascii c ∷ [];
  upper_char = λ c. upper_ascii c ∷ [];
  same_letter = λ c d. lower_ascii c == lower_ascii d;
}

-- The lists and the values of a server.
abbrev pub Data : Type 0
Data = (Text → List Text) × (Text → Option Text)

abbrev pub empty_data : Data
empty_data = (λ _. [], λ _. none)

abbrev pub server : Redis
server = record {
  Db = Data;
  list_at = λ k d. d.0 k;
  value_at = λ k d. d.1 k;
  pipeline = λ cs d. some (λ k. after_commands cs k (d.0 k), d.1);
  lrange = λ k d. some (d.0 k);
  del = λ k d. some (λ j. if text_eq k j then [] else d.0 j, d.1);
  get = λ k d. some (d.1 k);
  setex = λ k ttl v d. some (d.0, λ j. if text_eq k j then some v else d.1 j);
  incr = λ k d. some (d.0, λ j. if text_eq k j then some (codes "1") else d.1 j);
}

some_injective {ℓ} : {A : Type ℓ} (x y : A) → some x ≡ some y → x ≡ y
some_injective x y h = cc

pub server_laws : RedisLaws server
server_laws = record {
  list_at-pipeline = λ cs d {d'} h key.
      subst (λ (x : Data). x.0 key ≡ after_commands cs key (d.0 key)) (some_injective _ d' h) refl;
  lrange_lem =
      λ key d {items} h. subst (λ (x : List Text). x ≡ d.0 key) (some_injective _ items h) refl;
  list_at-del = λ k d {d'} h key.
      subst (λ (x : Data). x.0 key ≡ (if text_eq k key then [] else d.0 key))
        (some_injective _ d' h) refl;
  get_lem = λ key d {v} h. subst (λ (x : Option Text). x ≡ d.1 key) (some_injective _ v h) refl;
  value_at-setex = λ k ttl v d {d'} h key.
      subst (λ (x : Data). x.1 key ≡ (if text_eq k key then some v else d.1 key))
        (some_injective _ d' h) refl;
  value_at-incr = λ k d {d'} h key.
      subst (λ (x : Data). (text_eq k key ≡ true) ⊎ (x.1 key ≡ d.1 key)) (some_injective _ d' h)
        (elim (Bool-cases (text_eq k key)) [ inl e ↦ inl e | inr e ↦ inr (rw e refl) ]);
  list_at-setex = λ k ttl v d {d'} h key.
      subst (λ (x : Data). (text_eq k key ≡ true) ⊎ (x.0 key ≡ d.0 key)) (some_injective _ d' h)
        (inr refl);
}

-- A role and a content are written with a bar behind each character of the role.
abbrev write_item : Text → Text → Text
write_item [] content = b'.' ∷ content
write_item (c ∷ role) content = b'|' ∷ c ∷ write_item role content

abbrev longer_role : ℕ → Option (Option Text × Option Text) → Option (Option Text × Option Text)
longer_role c none = none
longer_role c (some (none, content)) = none
longer_role c (some (some role, content)) = some (some (c ∷ role), content)

abbrev read_item : Text → Option (Option Text × Option Text)
read_item [] = none
read_item (b ∷ []) = if b == b'.' then some (some [], some []) else none
read_item (b ∷ c ∷ t) =
    let more = longer_role c (read_item t) in
    if b == b'.' then some (some [], some (c ∷ t)) else more

abbrev pub letters : Json
letters = record { dumps = write_item; loads = read_item }

pub letters_roundtrip :
    (role content : Text)
    → letters.loads (letters.dumps role content) ≡ some (some role, some content)
letters_roundtrip [] [] = refl
letters_roundtrip [] (c ∷ t) = refl
letters_roundtrip (c ∷ role) content = rw (letters_roundtrip role content) refl

-- Scores in thousandths.
abbrev pub thousandths : Floats
thousandths = record { Float = ℕ; zero = 0; one = 1000; less = ltb }
