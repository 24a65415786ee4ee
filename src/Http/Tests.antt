-- ===== src/Http/Tests.antt =====
-- Runs of the HTTP client's reading of responses.
use pg_ask.Prelude.{[], ◌∷◌, none, ◌≡◌, refl, codes}
use pg_ask.Checked.{pass}
use pg_ask.Errors.{ok, err, provider_http}
use pg_ask.Http.{chunk, broken, read_capped, responds, posted}
use pg_ask.Http.Capped.{read_capped_lem}

posted_test :
    posted
      (λ t. t)
      4
      (λ t. pass t)
      (responds (record {
        status = 200;
        location = none;
        body = chunk (codes "abc") ∷ chunk (codes "def") ∷ [];
      }))
    ≡ ok (codes "abcd")
unfolding posted
posted_test = refl

posted_status_test :
    posted
      (λ t. t)
      4
      (λ t. pass t)
      (responds (record { status = 429; location = none; body = chunk (codes "slow") ∷ [] }))
    ≡ err (provider_http 429 (codes "slow"))
unfolding posted
posted_status_test = refl

read_capped_lem_example :
    read_capped 4 [] (chunk (codes "ab") ∷ broken ∷ chunk (codes "c") ∷ []) ≡ codes "ab"
read_capped_lem_example = read_capped_lem 4 (chunk (codes "ab") ∷ broken ∷ chunk (codes "c") ∷ [])
