-- ===== src/Handle/User.antt =====
-- pkg/internal/handle/handle.go: who calls, and how handlers answer.
use notevault.Prelude.{ℕ, Bool, not, ◌&&◌, Option, none, some, Text, codes, is_empty, if◌then◌else◌}
use notevault.Prelude.{trim_space}
use notevault.Prelude.Result.{Error}

-- The answers of the handlers: 400 with a message or the error of the binding, 500 with an error, 200
-- with a value, and 204.
pub data Reply (A : Type 0) : Type 0 where
  bad_request : Text → Reply A
  failed unbound : Error → Reply A
  found : A → Reply A
  no_content : Reply A

abbrev pub status : {A : Type 0} → Reply A → ℕ
status (bad_request message) = 400
status (failed e) = 500
status (unbound e) = 400
status (found a) = 200
status no_content = 204

-- What `checkUser` reads of a request: the header `X-User` and the query parameter `user`.
pub record Caller : Type 0 where
  pub header : Text
  pub query : Text

-- `release` is gin's mode, and `is_email` the validator's `required,email`.
unfoldable pub check_user : Bool → (Text → Bool) → Caller → Option Text
unfolding trim_space
check_user release is_email caller =
    let named = if is_empty caller.header then caller.query else caller.header in
    let user =
      trim_space (if is_empty named && not release then codes "test-user@example.com" else named) in
    if is_email user && not (is_empty user) then some user else none
