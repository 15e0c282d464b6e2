-- ===== src/Tests/Accounts.antt =====
-- Services for the authentication: tables that are lists, a hash that is the text itself, and access
-- tokens that are written out.
use agentic_rag_backend.Base.{
  ℕ, zero, suc, ◌<◌, ◌≡◌, refl, ap, Option, none, some, List, [], ◌∷◌, ◌++◌, length, take, drop,
  ltb, if◌then◌else◌, lt→ltb,
}
use agentic_rag_backend.Base.Text.{Text, codes, text_eq, text_eq_refl}
use agentic_rag_backend.Auth.{
  User, RefreshToken, OneTimeToken, Role, UserRole, Database, Claims, Decoded, valid, expired,
  invalid, Crypto, CryptoLaws,
}
use agentic_rag_backend.Tests.Tables.{rows_of, first_row}

-- Claims as a text: each part behind its length.
abbrev write_text : Text → Text → Text
write_text t rest = length t ∷ (t ++ rest)

abbrev write_optional : Option Text → Text → Text
write_optional none rest = 0 ∷ rest
write_optional (some t) rest = 1 ∷ write_text t rest

abbrev write_texts : List Text → Text
write_texts [] = []
write_texts (t ∷ ts) = write_text t (write_texts ts)

abbrev write_roles : Option (List Text) → Text
write_roles none = 0 ∷ []
write_roles (some ts) = 1 ∷ length ts ∷ write_texts ts

abbrev read_text : Text → Text × Text
read_text [] = ([], [])
read_text (n ∷ xs) = (take n xs, drop n xs)

abbrev read_optional : Text → Option Text × Text
read_optional [] = (none, [])
read_optional (zero ∷ xs) = (none, xs)
read_optional (suc n ∷ xs) = (some (read_text xs).0, (read_text xs).1)

abbrev read_texts : ℕ → Text → List Text
read_texts zero xs = []
read_texts (suc n) xs = (read_text xs).0 ∷ read_texts n (read_text xs).1

abbrev read_roles : Text → Option (List Text)
read_roles [] = none
read_roles (zero ∷ xs) = none
read_roles (suc n ∷ []) = none
read_roles (suc n ∷ k ∷ xs) = some (read_texts k xs)

take-append : (t rest : Text) → take (length t) (t ++ rest) ≡ t
take-append [] rest = refl
take-append (x ∷ t) rest = ap (◌∷◌ x) (take-append t rest)

drop-length_append : (t rest : Text) → drop (length t) (t ++ rest) ≡ rest
drop-length_append [] rest = refl
drop-length_append (x ∷ t) rest = drop-length_append t rest

read-write_optional :
    (o : Option Text) (rest : Text) → read_optional (write_optional o rest) ≡ (o, rest)
read-write_optional none rest = refl
read-write_optional (some t) rest = rw (take-append t rest, drop-length_append t rest) refl

read-write_texts : (ts : List Text) → read_texts (length ts) (write_texts ts) ≡ ts
read-write_texts [] = refl
read-write_texts (t ∷ ts) =
    rw (take-append t (write_texts ts), drop-length_append t (write_texts ts), read-write_texts ts)
      refl

read-write_roles : (o : Option (List Text)) → read_roles (write_roles o) ≡ o
read-write_roles none = refl
read-write_roles (some ts) = ap some (read-write_texts ts)

abbrev encode_claims : Text → Text → Claims → Text
encode_claims secret algorithm claims =
    claims.exp ∷ write_optional claims.sub (write_optional claims.email (write_roles claims.roles))

unfoldable pub decode_claims : Text → Text → Text → ℕ → Decoded
decode_claims secret algorithm [] now = invalid
decode_claims secret algorithm (exp ∷ xs) now =
    let subject = read_optional xs in
    let address = read_optional subject.1 in
    if ltb now exp
    then valid
        (record { sub = subject.0; email = address.0; roles = read_roles address.1; exp = exp })
    else expired

decode-encode_claims :
    (secret algorithm : Text) (claims : Claims) (now : ℕ)
    → now < claims.exp
    → decode_claims secret algorithm (encode_claims secret algorithm claims) now ≡ valid claims
unfolding decode_claims
decode-encode_claims secret algorithm claims now h =
    rw
      (
        lt→ltb now claims.exp h,
        read-write_optional claims.sub (write_optional claims.email (write_roles claims.roles)),
        read-write_optional claims.email (write_roles claims.roles),
        read-write_roles claims.roles,
      )
      refl

-- A hash that is the text itself.
abbrev pub crypto : Crypto
crypto = record {
  gensalt = λ seed. seed;
  hashpw = λ plain salt. plain;
  checkpw = λ plain hashed. some (text_eq plain hashed);
  sha256 = λ raw. raw;
  encode = encode_claims;
  decode = decode_claims;
  jwt_secret = codes "secret";
  jwt_algorithm = codes "HS256";
  access_token_expire_minutes = 60;
  refresh_token_expire_days = 7;
}

pub crypto-laws : CryptoLaws crypto
crypto-laws = record {
  checkpw-hashpw = λ plain seed. ap some (text_eq_refl plain);
  decode-encode = decode-encode_claims;
}

abbrev names_of : Text → List UserRole → List Role → List (Option Text)
names_of user_id [] roles = []
names_of user_id (link ∷ links) roles =
    let rest = names_of user_id links roles in
    if text_eq link.user_id user_id
    then (elim (first_row (λ (r : Role). text_eq r.id link.role_id) roles) [
      | none ↦ none
      | some role ↦ some role.name
    ])
      ∷ rest
    else rest

abbrev pub database : Database
database = record {
  users = rows_of User;
  refresh_tokens = rows_of RefreshToken;
  password_resets = rows_of OneTimeToken;
  email_verifications = rows_of OneTimeToken;
  roles = rows_of Role;
  user_roles = rows_of UserRole;
  embedded_roles = λ user_id links roles. some (names_of user_id links roles);
}
