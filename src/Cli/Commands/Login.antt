-- ===== src/Cli/Commands/Login.antt =====
-- internal/adapters/cli/run.go: what a login that exits with 0 has done.
use claude_oauth_proxy.Base.{
  sym, ap, ◌∙◌, ◌≡◌, inl, inr, refl, String, Bool, true, false, is_empty, trim_space, Bool-cases,
}
use claude_oauth_proxy.Core.{Error, Result, ok, err, panic}
use claude_oauth_proxy.Auth.{PrepareLoginOutput, CompleteLoginOutput}
use claude_oauth_proxy.Auth.Interface.{AuthService}
use claude_oauth_proxy.Cli.Code.{normalize_code}
use claude_oauth_proxy.Cli.Console.{Console, Exit, exited, Command, Outside, resume, give_up}
use claude_oauth_proxy.Cli.Commands.{
  with_code, with_line, line_of, complete_with, logged_in, login_prepared, execute_login_flow,
}

module _ {W : Type 0} where
  -- A call that is followed by exit 0 gave a result.
  pub resume-exited :
      {A : Type 0} (message : String) (next : A → Command W) (k k' : Console W)
      (r : Result Error A × W)
      → resume (give_up message) next k r ≡ (exited 0, k')
      → (a : A) × (w : W) × (r ≡ (ok a, w)) × (next a (record k { world = w }) ≡ (exited 0, k'))
  resume-exited message next k k' (ok a, w) h = (a, w, refl, h)
  resume-exited message next k k' (err e, w) h = cc
  resume-exited message next k k' (panic, w) h = cc

module _ {W : Type 0} (o : Outside W) (auth : AuthService W) where
  -- Where the code comes from: the flag, or else the line that is read.
  pub data Typed (code : String) (w : W) : String → W → Type 0 where
    given : is_empty (trim_space code) ≡ false → Typed code w (trim_space code) w
    read :
        (line : String)
        → is_empty (trim_space code) ≡ true
        → line_of (o.read_line w).0 ≡ ok line
        → Typed code w (trim_space line) (o.read_line w).1

  pub record IsLoggedIn (open_it : Bool) (code : String) (k k' : Console W) : Type 0 where
    pub prepared : PrepareLoginOutput
    pub completed : CompleteLoginOutput
    pub pasted : String
    pub opened : W
    pub asked : W
    pub prepare : auth.prepare_login open_it k.world ≡ (ok prepared, opened)
    pub typed : Typed code opened pasted asked
    pub complete :
        auth.complete_login
          (record {
            auth_code = normalize_code o.query pasted;
            state = prepared.state;
            code_verifier = prepared.code_verifier;
            redirect_uri = "";
          })
          asked
        ≡ (ok completed, k'.world)
    pub silent : k'.stderr ≡ k.stderr

  -- A session that is saved and told.
  record IsCompleting (prepared : PrepareLoginOutput) (pasted : String) (k k' : Console W)
      : Type 0 where
    pub completed : CompleteLoginOutput
    pub complete :
        auth.complete_login
          (record {
            auth_code = normalize_code o.query pasted;
            state = prepared.state;
            code_verifier = prepared.code_verifier;
            redirect_uri = "";
          })
          k.world
        ≡ (ok completed, k'.world)
    pub silent : k'.stderr ≡ k.stderr

  complete_with-exited :
      (prepared : PrepareLoginOutput) (pasted : String) (k k' : Console W)
      → complete_with o auth prepared pasted k ≡ (exited 0, k')
      → IsCompleting prepared pasted k k'
  unfolding complete_with
  complete_with-exited prepared pasted k k' h =
      let (completed, w, e, told) =
        resume-exited _ (logged_in o) k k' (auth.complete_login _ k.world) h in
      let answered : Exit × Console W → Result Error CompleteLoginOutput × W =
        λ r. (ok completed, r.1.world) in
      record {
        completed = completed;
        complete = e ∙ ap answered told;
        silent = ap (λ (r : Exit × Console W). r.1.stderr) (sym told);
      }

  -- The command that goes on with the code: on a console that has the same on stderr.
  abbrev Continued : String → (String → Command W) → Console W → Console W → Type 0
  Continued code next k k' =
      (pasted : String) × (mid : Console W) × Typed code k.world pasted mid.world
      × (mid.stderr ≡ k.stderr)
      × (next pasted mid ≡ (exited 0, k'))

  with_line-exited :
      (code : String) (next : String → Command W) (k mid k' : Console W) (r : Result String String)
      → is_empty (trim_space code) ≡ true
      → mid.stderr ≡ k.stderr
      → mid.world ≡ (o.read_line k.world).1
      → line_of (o.read_line k.world).0 ≡ r
      → with_line o next r mid ≡ (exited 0, k')
      → Continued code next k k'
  with_line-exited code next k mid k' (ok line) b same moved e h =
      (trim_space line, mid, rw moved (read line b e), same, h)
  with_line-exited code next k mid k' (err e) b same moved l h = cc
  with_line-exited code next k mid k' panic b same moved l h = cc

  with_code-exited :
      (code : String) (next : String → Command W) (k k' : Console W)
      → with_code o code next k ≡ (exited 0, k')
      → Continued code next k k'
  unfolding with_code
  with_code-exited code next k k' h = elim (Bool-cases (is_empty (trim_space code))) [
    | inl b ↦
        with_line-exited code next k _ k' (line_of (o.read_line k.world).0) b refl refl refl
          (rw b at h)
    | inr b ↦ (trim_space code, k, given b, refl, rw b at h)
  ]

  -- A login flow that ends with exit code 0 has prepared a login, taken the code of the flag or else
  -- of the line that was read, completed the login with that code as normalizeCode finds it and with
  -- the state and the verifier of the login it prepared, and has written nothing on stderr.
  pub execute_login_flow_outcome :
      (open_it : Bool) (code : String) (k k' : Console W)
      → execute_login_flow o auth open_it code k ≡ (exited 0, k')
      → IsLoggedIn open_it code k k'
  unfolding execute_login_flow
  execute_login_flow_outcome open_it code k k' h =
      let (prepared, opened, prepare, rest) =
        resume-exited _ (login_prepared o auth code) k k' (auth.prepare_login open_it k.world) h in
      let (pasted, mid, typed, same, last) =
        with_code-exited code (complete_with o auth prepared) _ k' rest in
      let done = complete_with-exited prepared pasted mid k' last in
      record {
        prepared = prepared;
        completed = done.completed;
        pasted = pasted;
        opened = opened;
        asked = mid.world;
        prepare = prepare;
        typed = typed;
        complete = done.complete;
        silent = done.silent ∙ same;
      }
