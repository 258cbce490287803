-- ===== src/Rpc/Codes.antt =====
-- The codes of pkg/rpc/errors.go.
use veraxis_memory_admissibi.Prelude.{◌≡◌, ◌↔◌, refl, Option, none, some}
use veraxis_memory_admissibi.Prelude.Bytes.{GoString, text}
use veraxis_memory_admissibi.Rpc.Types.{
  RpcError, context_error, server_not_ready, invalid_argument, random_error, ledger_error,
}

data Code : Type 0 where
  code_ok code_invalid_argument code_internal : Code

-- `String`
unfoldable code_text : Code → GoString
code_text code_ok = text "OK"
code_text code_invalid_argument = text "InvalidArgument"
code_text code_internal = text "Internal"

-- `ErrorCode`; an error that is no `*Error` is internal.
unfoldable error_code : Option RpcError → Code
error_code none = code_ok
error_code (some invalid_argument) = code_invalid_argument
error_code (some server_not_ready) = code_internal
error_code (some context_error) = code_internal
error_code (some random_error) = code_internal
error_code (some (ledger_error e)) = code_internal

-- Only a missing error has the code of success.
error_code-ok_iff : (e : Option RpcError) → (error_code e ≡ code_ok) ↔ (e ≡ none)
unfolding error_code
error_code-ok_iff none = (λ _. refl, λ _. refl)
error_code-ok_iff (some invalid_argument) = (λ h. absurd (cc), λ h. absurd (cc))
error_code-ok_iff (some server_not_ready) = (λ h. absurd (cc), λ h. absurd (cc))
error_code-ok_iff (some context_error) = (λ h. absurd (cc), λ h. absurd (cc))
error_code-ok_iff (some random_error) = (λ h. absurd (cc), λ h. absurd (cc))
error_code-ok_iff (some (ledger_error e)) = (λ h. absurd (cc), λ h. absurd (cc))

-- The texts of the codes tell them apart.
code_text-injective : (c d : Code) → code_text c ≡ code_text d → c ≡ d
unfolding code_text text
code_text-injective code_ok code_ok h = refl
code_text-injective code_ok code_invalid_argument h = absurd (cc)
code_text-injective code_ok code_internal h = absurd (cc)
code_text-injective code_invalid_argument code_ok h = absurd (cc)
code_text-injective code_invalid_argument code_invalid_argument h = refl
code_text-injective code_invalid_argument code_internal h = absurd (cc)
code_text-injective code_internal code_ok h = absurd (cc)
code_text-injective code_internal code_invalid_argument h = absurd (cc)
code_text-injective code_internal code_internal h = refl
