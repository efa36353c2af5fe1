-- ===== src/Rtsp/State.antt =====
-- class RTSPClient_prv (RTSPClient_prv.h): its state, the socket calls that it makes, and the monad
-- of its methods. The server and the socket library are a `Net`, whose answers may depend on all
-- calls so far.
use snmediaplayer_new.Common.{ℕ, Bool, true, false, Option, none, some, List, ◌∷◌}
use snmediaplayer_new.Common.Int.{ℤ}
use snmediaplayer_new.Common.Text.{Bytes}

-- The socket calls, with the socket.
pub data Io : Type 0 where
  get_addr_info : Io
  socket : Io
  set_reuse_addr set_non_blocking set_blocking connect select get_so_error close : ℤ → Io
  set_send_timeout set_receive_timeout : ℤ → Io
  write : Bytes → Io
  read : Io

-- What the outside answers, given the calls before, the latest first.
pub record Net : Type 0 where
  -- The return code of a call that only succeeds or fails; the socket, or -1, of `socket`.
  pub code : List Io → Io → ℤ
  -- How many addresses `getaddrinfo` found.
  pub addresses : List Io → ℕ
  -- Whether a failed `connect` left EINPROGRESS in `errno`.
  pub in_progress : List Io → Bool
  -- The value that `getsockopt` stores for SO_ERROR.
  pub so_error : List Io → ℤ
  -- What `writev` returns for a text.
  pub written : List Io → Bytes → ℤ
  -- The bytes that `readv` receives; `none` if it returns -1.
  pub received : List Io → Option Bytes

pub data PlayerStatus : Type 0 where
  player_none player_urlchange player_volumechange player_volumemute player_play : PlayerStatus
  player_pause player_fastforward player_fastbackward player_seek player_realtimetv : PlayerStatus
  player_quit : PlayerStatus

pub record PlayParam : Type 0 where
  pub ready : ℕ
  pub frequency : ℕ
  pub mode : ℕ
  pub symbol_rate : ℕ
  pub pn_id : ℕ

-- The fields that the modelled methods use, and the socket calls so far, the latest first. `port` is
-- `server_infor.port`, `ip` is `server_infor.ip`.
pub record Client : Type 0 where
  pub ip : Bytes
  pub port : ℕ
  pub session_id : Bytes
  pub global_session_id : Bytes
  pub session_timeout : ℕ
  pub ms_session_timeout : ℕ
  pub content_id : Bytes
  pub user_id : Bytes
  pub service_group : ℕ
  pub license : Bytes
  pub bit_rate : ℕ
  pub ms_ip : Bytes
  pub ms_port : ℕ
  pub ms_session_id : Bytes
  pub ms_global_session_id : Bytes
  pub media_start_time : ℕ
  pub media_stop_time : ℕ
  pub playing_time : ℕ
  pub play_param : PlayParam
  pub player_status : PlayerStatus
  pub if_keep_alive_error : Bool
  pub ss_keep_alive_miss_cnt : ℕ
  pub ms_keep_alive_miss_cnt : ℕ
  pub sock : ℤ
  pub cseq_tx : ℕ
  pub tx_buffer : Bytes
  pub rx_buffer : Bytes
  pub ios : List Io

-- A method: `none` is undefined behaviour (a null pointer that is read, a write behind a buffer).
abbrev pub M : Type 0 → Type 0
M A = Client → Option (A × Client)

abbrev pub pure : {A : Type 0} → A → M A
pure a c = some (a, c)

abbrev pub fault : {A : Type 0} → M A
fault c = none

infixl 5 ◌>>=◌ ◌>>◌
abbrev pub ◌>>=◌ : {A B : Type 0} → M A → (A → M B) → M B
◌>>=◌ m f c = elim (m c) [ none ↦ none | some (a, d) ↦ f a d ]

abbrev pub ◌>>◌ : {A B : Type 0} → M A → M B → M B
m >> k = m >>= λ _. k

abbrev pub modify : (Client → Client) → M (Unit {0})
modify f c = some (tt, f c)

-- A pointer or a size that must be there.
abbrev pub need : {A : Type 0} → Option A → M A
need none c = none
need (some a) c = some (a, c)

-- `if (test) … else …` between two methods.
abbrev pub branch : {A : Type 0} → Bool → M A → M A → M A
branch true m k = m
branch false m k = k

-- `if (!p) return code;`, and the rest of the method with the pointer.
abbrev pub or_return : {A B : Type 0} → Option A → B → (A → M B) → M B
or_return none code k = pure code
or_return (some p) code k = k p

abbrev pub done : M (Unit {0})
done c = some (tt, c)

module _ (net : Net) where
  -- A socket call: its return code, and the call on the log.
  abbrev pub io : Io → M ℤ
  io i c = some (net.code c.ios i, record c { ios = i ∷ c.ios })
