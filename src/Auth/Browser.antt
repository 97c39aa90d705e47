-- ===== src/Auth/Browser.antt =====
-- internal/auth/service.go: the command that opens a browser.
use claude_oauth_proxy.Base.{String, ◌==◌, List, [], ◌∷◌, if◌then◌else◌}

unfoldable pub browser_command : String → String → String × List String
browser_command goos target =
    if goos == "darwin"
    then ("open", target ∷ [])
    else if goos == "windows"
    then ("rundll32", "url.dll,FileProtocolHandler" ∷ target ∷ [])
    else ("xdg-open", target ∷ [])

-- `ExecBrowserOpener`; `start` is `commandStarter`, whose error the service drops.
unfoldable pub exec_browser_opener :
    {W : Type 0} → String → (String → List String → W → W) → String → W → W
unfolding browser_command
exec_browser_opener goos start target =
    let (name, args) = browser_command goos target in start name args
