-- ===== src/Uring/Registrar/Tests.antt =====
-- The theorem on the registrar at a concrete kernel.
use hamerkop.Base.{ℕ, suc, ◌≡◌, ◌∷◌, [], List}
use hamerkop.Uring.System.{Answer}
use hamerkop.Uring.Registrar.{Registrar}
use hamerkop.Uring.Registrar.Serve.{
  Registration, with_files, with_personality, without_personality, perform_all, serving, serve_all,
  perform_all-serving,
}

abbrev registrar : Registrar
registrar = record { ringfd = 3 }

abbrev three_calls : List Registration
three_calls = with_files (10 ∷ 11 ∷ []) ∷ with_personality ∷ without_personality 1 ∷ []

-- The kernel counts its calls, and answers with their number.
abbrev counting : ℕ → ℕ → Registration → Answer × ℕ
counting n fd x = (record { returned = n; errno = 0 }, suc n)

perform_all-serving_example :
    perform_all (serving counting) registrar three_calls 0 ≡ serve_all counting 3 three_calls 0
perform_all-serving_example = perform_all-serving counting registrar three_calls 0
