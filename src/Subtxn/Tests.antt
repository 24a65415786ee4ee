-- ===== src/Subtxn/Tests.antt =====
-- Runs of `run_in_subtransaction`.
use pg_ask.Prelude.{ℕ, [], ◌∷◌, ◌≡◌, refl, codes}
use pg_ask.Errors.{transport, sql, err}
use pg_ask.Subtxn.{
  Exit, returned, raised, Backend, run_in_subtransaction, finish, release_current_subtransaction,
  release, rollback_and_release_subtransaction,
}

abbrev backend : Backend ℕ
backend = record { outer = 1 ∷ []; levels = (2 ∷ []) ∷ []; memory_context = 7; resource_owner = 8 }

abbrev written : Backend ℕ
written = record {
  outer = 1 ∷ [];
  levels = (3 ∷ []) ∷ (2 ∷ []) ∷ [];
  memory_context = 40;
  resource_owner = 2;
}

-- A body that writes 3 and returns an error.
abbrev failing : Backend ℕ → Exit ℕ × Backend ℕ
failing b = (returned (err (transport (codes "timeout"))), written)

abbrev raising : Backend ℕ → Exit ℕ × Backend ℕ
raising b = (raised (codes "division by zero"), written)

failing_test :
    run_in_subtransaction failing backend
    ≡ (err (transport (codes "timeout")), record backend { levels = (2 ∷ 3 ∷ []) ∷ [] })
unfolding run_in_subtransaction finish release_current_subtransaction release
failing_test = refl

raising_test :
    run_in_subtransaction raising backend ≡ (err (sql (codes "division by zero")), backend)
unfolding run_in_subtransaction finish rollback_and_release_subtransaction
raising_test = refl
