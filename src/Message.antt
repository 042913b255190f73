-- ===== src/Message.antt =====
-- include/msg_head.h and include/msg_dispatcher.h: the 8 byte head of a message, and the callbacks
-- by message id. An `int` is its 32 bit pattern, below 2 ^ 32, negative from 2 ^ 31 on; `memcpy` of
-- a commu_head lays its fields out as on x86, the low byte first.
pub mod Frames
pub mod Unique
pub mod Split
pub mod Dispatch
use easy_reactor.Base.{
  take, ◌||◌, ltb, ◌&&◌, not, ℕ, zero, suc, ◌+◌, ◌-◌, ◌*◌, ◌/◌, ◌%◌, ◌^◌, List, [], ◌∷◌, ◌++◌,
  Option, none, some, Bool, true, false, leb, if◌then◌else◌,
}
use mathlib.Core.Option
use easy_reactor.Base.Run.{Run, ok, ◌>>=◌, deref}
use easy_reactor.Base.Table.{Table, empty, insert}

pub record CommuHead : Type 0 where
  pub cmdid : ℕ
  pub length : ℕ

abbrev pub commu_head_length : ℕ
commu_head_length = 8

abbrev pub msg_length_limit : ℕ
msg_length_limit = 65536 - commu_head_length

-- `n < 0`
abbrev pub is_negative : ℕ → Bool
is_negative n = leb (2 ^ 31) n

-- `n > MSG_LENGTH_LIMIT || n < 0`, on signed numbers
abbrev pub is_malformed : ℕ → Bool
is_malformed n = (not (is_negative n) && ltb msg_length_limit n) || is_negative n

-- The bytes of an `int`.
abbrev pub int_bytes : ℕ → List ℕ
int_bytes n = n % 256 ∷ n / 256 % 256 ∷ n / 65536 % 256 ∷ n / 16777216 % 256 ∷ []

-- `(const char*)&head`
unfoldable pub head_bytes : CommuHead → List ℕ
head_bytes h = int_bytes h.cmdid ++ int_bytes h.length

abbrev pub int_of : ℕ → ℕ → ℕ → ℕ → ℕ
int_of a b c d = a + 256 * b + 65536 * c + 16777216 * d

-- `memcpy(&head, data, COMMU_HEAD_LENGTH)`; `none` is a read past the end of `data`.
unfoldable pub read_head : List ℕ → Option CommuHead
read_head (a ∷ b ∷ c ∷ d ∷ e ∷ f ∷ g ∷ h ∷ rest) =
    some (record { cmdid = int_of a b c d; length = int_of e f g h })
read_head _ = none

-- A callback that is due: the function and its argument are pointers, kept as numbers, and `bytes`
-- is the `len` bytes that `data` points to, with `none` for NULL.
pub record Call : Type 0 where
  pub func : ℕ
  pub bytes : Option (List ℕ)
  pub len : ℕ
  pub cmdid : ℕ
  pub usr_data : ℕ

pub record MsgDispatcher : Type 0 where
  pub dispatcher : Table ℕ
  pub args : Table ℕ

pub new_dispatcher : MsgDispatcher
new_dispatcher = record { dispatcher = empty; args = empty }

abbrev pub is_some {ℓ} : {A : Type ℓ} → Option A → Bool
is_some none = false
is_some (some a) = true

unfoldable pub exist : MsgDispatcher → ℕ → Bool
exist d cmdid = is_some (d.dispatcher cmdid)

-- `true` is the result 0, `false` is -1.
unfoldable pub add_msg_cb : MsgDispatcher → ℕ → ℕ → ℕ → Bool × MsgDispatcher
add_msg_cb d cmdid msg_cb usr_data = if is_some (d.dispatcher cmdid) then (false, d) else (
  true,
  record { dispatcher = insert d.dispatcher cmdid msg_cb; args = insert d.args cmdid usr_data },
)

-- The call that cb makes. Both maps have the same keys, so `_args[cmdid]` makes no entry.
unfoldable pub cb : MsgDispatcher → Option (List ℕ) → ℕ → ℕ → Run Call
cb d bytes len cmdid = do
  func ← deref (d.dispatcher cmdid)
  usr_data ← deref (d.args cmdid)
  ok (record {
    func = func;
    bytes = Option.map (take len) bytes;
    len = len;
    cmdid = cmdid;
    usr_data = usr_data;
  })
