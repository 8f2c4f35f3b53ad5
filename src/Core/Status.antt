-- ===== src/Core/Status.antt =====
-- src/Blocxxi/Core/result.h and result.cpp: status codes and statuses.
use blocxxi.Base.{Bytes, text, Bool, true, false}

pub data StatusCode : Type 0 where
  ok_code invalid_argument duplicate not_found storage_error rejected unsupported io_error :
      StatusCode

pub record Status : Type 0 where
  pub code : StatusCode
  pub message : Bytes

abbrev pub code_ok : StatusCode → Bool
code_ok StatusCode.ok_code = true
code_ok _ = false

-- Status::ok
abbrev pub status_ok : Status → Bool
status_ok s = code_ok s.code

-- Status::Success
abbrev pub success : Bytes → Status
success message = record { code = ok_code; message = message }

-- Status::Failure
abbrev pub failure : StatusCode → Bytes → Status
failure code message = record { code = code; message = message }

unfoldable pub to_string : StatusCode → Bytes
unfolding text
to_string StatusCode.ok_code = text "ok"
to_string StatusCode.invalid_argument = text "invalid_argument"
to_string StatusCode.duplicate = text "duplicate"
to_string StatusCode.not_found = text "not_found"
to_string StatusCode.storage_error = text "storage_error"
to_string StatusCode.rejected = text "rejected"
to_string StatusCode.unsupported = text "unsupported"
to_string StatusCode.io_error = text "io_error"
