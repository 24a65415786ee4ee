-- ===== src/Errors.antt =====
-- src/infra/errors.rs: the crate-wide error type, its `Clone`, and the SQLSTATE of each variant.
use pg_ask.Prelude.{ℕ, Text, codes, ◌≡◌, refl, ◌⊎◌, inl, inr, [], ◌∷◌, ◌++◌, decimal}

-- `serde_json::Error` is kept as its message.
pub data AskError : Type 0 where
  missing_config : Text → AskError
  invalid_config : Text → Text → AskError
  unsupported_provider : Text → AskError
  empty_response : AskError
  provider_http : ℕ → Text → AskError
  transport : Text → AskError
  bad_json : Text → AskError
  tool_failed : Text → Text → AskError
  max_iterations : ℕ → AskError
  guard_rejected : Text → AskError
  sql : Text → AskError

-- `impl Clone for AskError`
unfoldable pub clone : AskError → AskError
clone (missing_config k) = missing_config k
clone (invalid_config key message) = invalid_config key message
clone (unsupported_provider p) = unsupported_provider p
clone empty_response = empty_response
clone (provider_http status body) = provider_http status body
clone (transport t) = transport t
clone (bad_json e) = transport e
clone (tool_failed name message) = tool_failed name message
clone (max_iterations max) = max_iterations max
clone (guard_rejected s) = guard_rejected s
clone (sql s) = sql s

-- The variants of `pgrx::PgSqlErrorCode` that the crate uses.
pub data PgSqlErrorCode : Type 0 where
  syntax_error invalid_parameter_value feature_not_supported : PgSqlErrorCode
  external_routine_exception connection_exception : PgSqlErrorCode
  invalid_text_representation program_limit_exceeded insufficient_privilege : PgSqlErrorCode

unfoldable pub sql_error_code : AskError → PgSqlErrorCode
sql_error_code (missing_config _) = syntax_error
sql_error_code (unsupported_provider _) = syntax_error
sql_error_code (invalid_config _ _) = invalid_parameter_value
sql_error_code empty_response = feature_not_supported
sql_error_code (provider_http _ _) = external_routine_exception
sql_error_code (transport _) = connection_exception
sql_error_code (bad_json _) = invalid_text_representation
sql_error_code (tool_failed _ _) = external_routine_exception
sql_error_code (sql _) = external_routine_exception
sql_error_code (max_iterations _) = program_limit_exceeded
sql_error_code (guard_rejected _) = insufficient_privilege

-- The bytes of ` — `.
abbrev pub dash : Text
dash = 32 ∷ 0xe2 ∷ 0x80 ∷ 0x94 ∷ 32 ∷ []

-- `Display`, by the `#[error]` attributes
unfoldable pub display : AskError → Text
unfolding decimal
display (missing_config k) = codes "missing config key: pg_ask." ++ k
display (invalid_config key message) =
    codes "invalid config value for pg_ask." ++ (key ++ (codes ": " ++ message))
display (unsupported_provider p) = codes "unsupported provider: " ++ p
display empty_response = codes "provider returned no content"
display (provider_http status body) =
    codes "provider HTTP error: " ++ (decimal status ++ (dash ++ body))
display (transport t) = codes "provider request failed: " ++ t
display (bad_json e) = codes "provider returned malformed JSON: " ++ e
display (tool_failed name message) = codes "tool `" ++ (name ++ (codes "` failed: " ++ message))
display (max_iterations max) = codes "agent exceeded max iterations (" ++ (decimal max ++ codes ")")
display (guard_rejected s) = codes "SQL guard rejected statement: " ++ s
display (sql s) = codes "SQL error: " ++ s

-- `std::result::Result<T, AskError>`
pub data Result {ℓ} (T : Type ℓ) : Type ℓ where
  ok : T → Result T
  err : AskError → Result T

-- The operator `?`: the rest of the function runs on the value, and an error is returned at once.
infixl 5 ◌>>=◌ ◌>>◌
abbrev pub ◌>>=◌ {ℓ κ} : {T : Type ℓ} {U : Type κ} → Result T → (T → Result U) → Result U
(ok value) >>= next = next value
(err error) >>= next = err error

abbrev pub ◌>>◌ {ℓ} : {U : Type ℓ} → Result (Unit {0}) → Result U → Result U
step >> rest = step >>= λ _. rest

abbrev pub done : Result (Unit {0})
done = ok tt

pub >>-eq-ok {ℓ} :
    {B : Type ℓ} (m : Result (Unit {0})) (k : Result B) {b : B}
    → (m >> k) ≡ ok b
    → (m ≡ done) × (k ≡ ok b)
>>-eq-ok (ok tt) k h = (refl, h)
>>-eq-ok (err e) k h = cc

pub Result-cases {ℓ} :
    {A : Type ℓ} (m : Result A) → ((a : A) × (m ≡ ok a)) ⊎ ((e : AskError) × (m ≡ err e))
Result-cases (ok a) = inl (a, refl)
Result-cases (err e) = inr (e, refl)

-- A step that is followed by others has given a value, if all of them have.
pub >>=-eq-ok {ℓ κ} :
    {T : Type ℓ} {U : Type κ} (step : Result T) (next : T → Result U) {u : U}
    → (step >>= next) ≡ ok u
    → (value : T) × (step ≡ ok value) × (next value ≡ ok u)
>>=-eq-ok (ok value) next h = (value, refl, h)
>>=-eq-ok (err error) next h = cc
