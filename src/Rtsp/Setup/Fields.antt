-- ===== src/Rtsp/Setup/Fields.antt =====
-- What a reply to SETUP carries, as the server prints it.
use snmediaplayer_new.Common.{ℕ, ◌+◌, ◌*◌, ◌≤◌, ◌<◌, ◌≡◌, some, ◌++◌, length}
use snmediaplayer_new.Common.Text.{Bytes, codes, strstr, strchr}
use snmediaplayer_new.Common.Text.Matches.{Lacks}
use snmediaplayer_new.Common.Decimal.{print}
use snmediaplayer_new.Common.Decimal.RoundTrip.{NoDigit}
use snmediaplayer_new.Rtsp.Session.{timed_header}

-- What a complete reply says of the session and of the stream.
pub record Fields : Type 0 where
  pub global_id : Bytes
  pub id : Bytes
  pub timeout : ℕ
  pub program : ℕ
  pub frequency : ℕ
  -- In thousands, and what is behind the point.
  pub symbol_rate : ℕ
  pub symbol_fraction : ℕ
  pub modulation : ℕ

-- What it says of the media server.
pub record Control : Type 0 where
  pub id : Bytes
  pub host : Bytes
  pub port : ℕ
  pub timeout : ℕ

-- The number is printed behind the key, where the key first stands, and no digit behind the number.
pub record Prints (rx key : Bytes) (n : ℕ) : Type 0 where
  pub rest : Bytes
  pub first : strstr rx key ≡ some (key ++ (print n ++ rest))
  pub ends : NoDigit rest

-- The reply carries the fields, each behind its key: the ids fit their arrays, and the numbers their
-- types.
pub record Carries (rx : Bytes) (f : Fields) : Type 0 where
  pub status_rest : Bytes
  pub status : strchr rx 32 ≡ some (codes " 200" ++ status_rest)
  pub global_rest : Bytes
  pub global :
      strstr rx (codes "GlobalSession:")
      ≡ some (codes "GlobalSession: " ++ (f.global_id ++ (codes "\r\n" ++ global_rest)))
  pub global_line : Lacks 13 f.global_id
  pub global_fits : length f.global_id ≤ 31
  pub session_rest : Bytes
  pub session :
      strstr (f.global_id ++ (codes "\r\n" ++ global_rest)) (codes "Session:")
      ≡ some (timed_header f.id f.timeout session_rest)
  pub timeout :
      strstr rx (codes "timeout=") ≡ some (codes "timeout=" ++ (print f.timeout ++ session_rest))
  pub timeout_ends : NoDigit session_rest
  pub id_fits : length f.id ≤ 31
  pub transport_rest : Bytes
  pub transport : strstr rx (codes "Transport") ≡ some transport_rest
  pub program : Prints rx (codes "programid=") f.program
  pub frequency : Prints rx (codes "frequency=") f.frequency
  pub symbol_rest : Bytes
  pub symbol :
      strstr rx (codes "symbol_rate=")
      ≡ some (
          codes "symbol_rate="
          ++ (print f.symbol_rate ++ (codes "." ++ (print f.symbol_fraction ++ symbol_rest))))
  pub symbol_ends : NoDigit symbol_rest
  pub modulation : Prints rx (codes "modulation=") f.modulation

-- The reply carries the fields of the media server, one behind the other.
pub record CarriesControl (rx : Bytes) (k : Control) : Type 0 where
  pub rest : Bytes
  pub control :
      strstr rx (codes "ControlSession:")
      ≡ some (
          codes "ControlSession: "
          ++ (k.id
              ++ (codes ";ControlHost:"
                  ++ (k.host ++ (codes ";ControlPort:" ++ (print k.port ++ rest))))))
  pub port_ends : NoDigit rest
  pub id_plain : Lacks 67 k.id
  pub host_plain : Lacks 67 k.host
  pub id_fits : length k.id ≤ 31
  pub host_fits : length k.host ≤ 255
  pub timeout : Prints rx (codes "ControlTimeout=") k.timeout

-- The numbers fit their types.
abbrev pub Fit : Fields → Type 0
Fit f =
    (f.timeout < 4294967296)
    × (f.program < 4294967296)
    × (f.frequency < 4294967296)
    × (f.symbol_rate * 1000 + f.symbol_fraction < 4294967296)
    × (f.modulation < 65536)
