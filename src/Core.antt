-- ===== src/Core.antt =====
-- internal/core/error.go, and the results of the program's calls.
use Prim.Native.String
use claude_oauth_proxy.Base.{ℕ, String, Option, none, some, if◌then◌else◌, is_empty}

-- `Err` is kept as the text that its `Error` method returns.
pub record Error : Type 0 where
  pub code : String
  pub status_code : ℕ
  pub message : String
  pub cause : Option String

unfoldable pub new_error : String → ℕ → String → Option String → Error
new_error code status_code message cause = record {
  code = code;
  status_code = status_code;
  message = message;
  cause = cause;
}

error_text_from : String → Option String → String
error_text_from message none = message
error_text_from message (some e) =
    if is_empty message then e else String.◌++◌ message (String.◌++◌ ": " e)

-- `(*Error).Error`, on a pointer that may be nil.
unfoldable pub error_text : Option Error → String
unfolding error_text_from
error_text none = ""
error_text (some e) = error_text_from e.message e.cause

-- `(*Error).Unwrap`
unfoldable pub unwrap : Option Error → Option String
unwrap none = none
unwrap (some e) = e.cause

-- What a Go call gives back: a value, an error, or a panic (a nil pointer is used).
pub data Result (E A : Type 0) : Type 0 where
  ok : A → Result E A
  err : E → Result E A
  panic : Result E A

-- A call that may change the state `W` of what it reaches; the state comes back after an error too.
abbrev pub Action : Type 0 → Type 0 → Type 0 → Type 0
Action W E A = W → Result E A × W

module _ {W E A : Type 0} where
  abbrev pub pure : A → Action W E A
  pure a w = (ok a, w)

  abbrev pub fail : E → Action W E A
  fail e w = (err e, w)

  abbrev pub lift : Result E A → Action W E A
  lift r w = (r, w)

module _ {W E A B : Type 0} where
  abbrev pub proceed : Result E A × W → (A → Action W E B) → Result E B × W
  proceed (ok a, w) f = f a w
  proceed (err e, w) f = (err e, w)
  proceed (panic, w) f = (panic, w)

infixl 5 ◌>>=◌
abbrev pub ◌>>=◌ : {W E A B : Type 0} → Action W E A → (A → Action W E B) → Action W E B
◌>>=◌ m f w = proceed (m w) f
