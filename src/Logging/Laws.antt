-- ===== src/Logging/Laws.antt =====
-- internal/auth/service.go and internal/provider/provider.go: a logged call is the call, with its log.
use mathlib.Core.Path.{refl}
use claude_oauth_proxy.Base.{ℤ, ◌≡◌, String, [], ◌∷◌, ◌++◌, append_assoc}
use claude_oauth_proxy.Core.{Error, Action}
use claude_oauth_proxy.Logging.{
  Logged, start_entry, provider_entries, auth_entries, with_provider_operation, with_auth_operation,
}

module _ {W A : Type 0} (now : W → ℤ) (elapsed_ms : ℤ → ℤ → ℤ) (operation : String)
    (run : Action W Error A) (l : Logged W) where
  -- Logging changes neither the result nor the state of a call of the provider: the log gains a
  -- start entry, and the entries of the finished call.
  pub with_provider_operation_lem :
      let (r, after) = with_provider_operation now elapsed_ms operation run l in
      (r ≡ (run l.world).0)
      × (after.world ≡ (run l.world).1)
      × (after.logs
          ≡ l.logs
            ++ start_entry operation
              ∷ provider_entries now elapsed_ms operation
                  (now l.world)
                  (run l.world).0
                  (run l.world).1)
  unfolding with_provider_operation
  with_provider_operation_lem = (refl, refl, append_assoc l.logs (start_entry operation ∷ []) _)

  -- The same of a call of the auth service.
  pub with_auth_operation_lem :
      let (r, after) = with_auth_operation now elapsed_ms operation run l in
      (r ≡ (run l.world).0)
      × (after.world ≡ (run l.world).1)
      × (after.logs
          ≡ l.logs
            ++ start_entry operation
              ∷ auth_entries now elapsed_ms operation (now l.world) (run l.world).0 (run l.world).1)
  unfolding with_auth_operation
  with_auth_operation_lem = (refl, refl, append_assoc l.logs (start_entry operation ∷ []) _)
