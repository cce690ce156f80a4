-- ===== src/Status.antt =====
-- include/lcc/error.h and src/common/lcc_error.c: `lcc_status_t` and `lcc_status_string`.
use kuangshi16pro_series_gm.Prelude.{◌≡◌, refl, Bool, true, false, arith}
use kuangshi16pro_series_gm.Text.{Text, literal}

pub data Status : Type 0 where
  ok invalid_argument io not_found permission parse range not_supported unimplemented
        buffer_too_small :
      Status

-- `status == LCC_OK`
abbrev pub is_ok : Status → Bool
is_ok Status.ok = true
is_ok _ = false

pub is_ok→eq : (s : Status) → is_ok s ≡ true → s ≡ Status.ok
is_ok→eq Status.ok h = refl
is_ok→eq s h = ground (arith, h)

-- `status == LCC_ERR_NOT_SUPPORTED`
abbrev pub is_not_supported : Status → Bool
is_not_supported Status.not_supported = true
is_not_supported _ = false

-- `status == LCC_ERR_NOT_FOUND`
abbrev pub is_not_found : Status → Bool
is_not_found Status.not_found = true
is_not_found _ = false

-- The switch covers every value of the enum, so its default is not reached.
unfoldable pub status_string : Status → Text
status_string Status.ok = literal "ok"
status_string Status.invalid_argument = literal "invalid argument"
status_string Status.io = literal "io error"
status_string Status.not_found = literal "not found"
status_string Status.permission = literal "permission denied"
status_string Status.parse = literal "parse error"
status_string Status.range = literal "value out of range"
status_string Status.not_supported = literal "not supported"
status_string Status.unimplemented = literal "not implemented"
status_string Status.buffer_too_small = literal "buffer too small"
