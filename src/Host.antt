-- ===== src/Host.antt =====
-- What the program calls and does not implement itself: the SHA-256 library
-- (lib/signature/sha256.cc) and the JSON library (include/json/json.hpp); and what memory holds
-- where the program reads it though C++ does not say what is there.
use cosicoin.Base.{ℕ, Option}
use cosicoin.Base.Text.{Bytes}
use cosicoin.Base.Result.{Result}
use cosicoin.Json.{Json}

pub record Host : Type 0 where
  -- `SHA256::operator()`
  pub hash : Bytes → Bytes
  -- `json::dump`; that it throws on strings that are not UTF-8 is left out.
  pub dump : Json → Bytes
  -- `json::parse`
  pub parse : Bytes → Option Json
  -- The byte that a read of /dev/urandom gives at this point of the run, if it succeeds.
  pub urandom : ℕ → Option ℕ
  -- What a read of this string yields after its memory was released: anything, or a failure.
  pub freed : Bytes → Result Bytes
  -- What a variable holds that nothing was assigned to, when a message with this number was read.
  pub unset : ℕ → ℕ
