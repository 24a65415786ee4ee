-- ===== src/Providers/Build.antt =====
-- The choice of `build` of src/providers/mod.rs; the adapters are made of the configuration alone.
use pg_ask.Prelude.{
  Bool, List, [], ◌∷◌, if◌then◌else◌, any, Text, codes, eq, trim, to_ascii_lowercase,
}
use pg_ask.Errors.{unsupported_provider, Result, ok, err}

pub data Adapter : Type 0 where
  anthropic fixture gemini openai : Adapter

abbrev pub is_one_of : Text → List Text → Bool
is_one_of key names = any (λ name. eq key name) names

abbrev pub openai_names : List Text
openai_names =
    codes "openai"
    ∷ codes "openai-compat"
    ∷ codes "groq"
    ∷ codes "together"
    ∷ codes "mistral"
    ∷ codes "ollama"
    ∷ codes "vllm"
    ∷ codes "lmstudio"
    ∷ []

abbrev pub of_key : Text → Text → Result Adapter
of_key provider key =
    if is_one_of key (codes "anthropic" ∷ codes "claude" ∷ [])
    then ok anthropic
    else if eq key (codes "fixture")
    then ok fixture
    else if is_one_of key (codes "gemini" ∷ codes "google" ∷ codes "google-genai" ∷ [])
    then ok gemini
    else if is_one_of key openai_names
    then ok openai
    else err (unsupported_provider provider)

unfoldable pub build : Text → Result Adapter
unfolding any eq trim to_ascii_lowercase
build provider = of_key provider (to_ascii_lowercase (trim provider))
