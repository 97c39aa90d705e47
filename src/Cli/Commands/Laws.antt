-- ===== src/Cli/Commands/Laws.antt =====
-- internal/adapters/cli/run.go: a command that fails says so on stderr.
use claude_oauth_proxy.Base.{
  ℕ, ◌≤◌, ◌<◌, ◌≡◌, ◌⊎◌, inl, inr, refl, String, List, [], ◌∷◌, ◌++◌, arith, length, length-append,
}
use claude_oauth_proxy.Logging.{Entry}
use claude_oauth_proxy.Core.{Error, Result, ok, err, panic, Action}
use claude_oauth_proxy.Cli.Console.{
  Console, Exit, exited, crashed, Command, exit, print, complain, call, resume, give_up, log,
}

module _ {W : Type 0} where
  -- How an exit code goes with what was written on stderr: it is 0, or it is 1 or 2 and there is more
  -- than before.
  pub record IsExplained (written : ℕ) (n : ℕ) (k : Console W) : Type 0 where
    pub kept : written ≤ length k.stderr
    pub code : (n ≡ 0) ⊎ (((n ≡ 1) ⊎ (n ≡ 2)) × (written < length k.stderr))

  -- The same of a command's end; a panic has no exit code.
  abbrev pub Explained : ℕ → Exit × Console W → Type 0
  Explained written (exited n, k) = IsExplained written n k
  Explained written (crashed, k) = Unit

  abbrev pub IsExplaining : Command W → Type 0
  IsExplaining c =
      (written : ℕ) (k : Console W) → written ≤ length k.stderr → Explained written (c k)

  pub exit-IsExplaining : IsExplaining (exit 0)
  exit-IsExplaining written k h = record { kept = h; code = inl refl }

  pub print-IsExplaining :
      (lines : List String) (next : Command W) → IsExplaining next → IsExplaining (print lines next)
  print-IsExplaining lines next h written k le =
      h written (record k { stdout = k.stdout ++ lines }) le

  pub log-IsExplaining :
      (e : Entry) (next : Command W) → IsExplaining next → IsExplaining (log e next)
  log-IsExplaining e next h written k le = h written (record k { logs = k.logs ++ e ∷ [] }) le

  pub complain-IsExplaining :
      (lines : List String) (next : Command W)
      → IsExplaining next
      → IsExplaining (complain lines next)
  complain-IsExplaining lines next h written k le =
      h written (record k { stderr = k.stderr ++ lines })
        (omega (arith, length-append k.stderr lines))

  -- A last message before the exit code 1 or 2.
  pub complain-exit :
      (line : String) (lines : List String) (n : ℕ)
      → (n ≡ 1) ⊎ (n ≡ 2)
      → IsExplaining (complain (line ∷ lines) (exit n))
  complain-exit line lines n e written k le = record {
    kept = omega (arith, length-append k.stderr (line ∷ lines));
    code = inr (e, omega (arith, length-append k.stderr (line ∷ lines)));
  }

  resume-Explained :
      {A : Type 0} (failed : Error → Command W) (next : A → Command W) (written : ℕ) (k : Console W)
      (r : Result Error A × W)
      → written ≤ length k.stderr
      → ((e : Error) → IsExplaining (failed e))
      → ((a : A) → IsExplaining (next a))
      → Explained written (resume failed next k r)
  resume-Explained failed next written k (ok a, w) le f g = g a written (record k { world = w }) le
  resume-Explained failed next written k (err e, w) le f g = f e written (record k { world = w }) le
  resume-Explained failed next written k (panic, w) le f g = tt

  pub call-IsExplaining :
      {A : Type 0} (m : Action W Error A) (failed : Error → Command W) (next : A → Command W)
      → ((e : Error) → IsExplaining (failed e))
      → ((a : A) → IsExplaining (next a))
      → IsExplaining (call m failed next)
  call-IsExplaining m failed next f g written k le =
      resume-Explained failed next written k (m k.world) le f g

  pub give_up-IsExplaining : (message : String) (e : Error) → IsExplaining (give_up message e)
  give_up-IsExplaining message e = complain-exit _ [] 1 (inl refl)
