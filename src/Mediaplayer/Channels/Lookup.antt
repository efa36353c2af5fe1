-- ===== src/Mediaplayer/Channels/Lookup.antt =====
-- The list of channels as a table.
use snmediaplayer_new.Common.{
  ◌≡◌, refl, ap, Option, none, some, List, [], ◌∷◌, ◌++◌, if◌then◌else◌, length, length-append, ◌∙◌,
  arith,
}
use snmediaplayer_new.Common.Int.{ℤ, int_eq}
use snmediaplayer_new.Common.Text.{Bytes}
use snmediaplayer_new.Mediaplayer.{Mediaplayer}
use snmediaplayer_new.Mediaplayer.Channels.{
  find_channel, push_channel, register_channel, user_channel_id,
}

-- The specification: a table of ids with their channels, where the first entry of an id counts.
abbrev pub Table : Type 0
Table = List (ℤ × Bytes)

abbrev pub lookup : ℤ → Table → Option Bytes
lookup id [] = none
lookup id ((k, info) ∷ t) = if int_eq k id then some info else lookup id t

-- The table that the two lists stand for.
abbrev pub table_of : List Bytes → List ℤ → Table
table_of [] ks = []
table_of (c ∷ cs) [] = []
table_of (c ∷ cs) (k ∷ ks) = (k, c) ∷ table_of cs ks

find-lookup :
    (cs : List Bytes) (ks : List ℤ) (id : ℤ)
    → length cs ≡ length ks
    → find_channel cs ks id ≡ some (lookup id (table_of cs ks))
unfolding find_channel
find-lookup [] ks id e = refl
find-lookup (c ∷ cs) [] id e = absurd (omega arith)
find-lookup (c ∷ cs) (k ∷ ks) id e = ground (arith, find-lookup cs ks id (omega arith))

table_of-push :
    (cs : List Bytes) (ks : List ℤ) (c : Bytes) (k : ℤ)
    → length cs ≡ length ks
    → table_of (cs ++ (c ∷ [])) (ks ++ (k ∷ [])) ≡ table_of cs ks ++ ((k, c) ∷ [])
table_of-push [] [] c k e = refl
table_of-push [] (x ∷ ks) c k e = absurd (omega arith)
table_of-push (x ∷ cs) [] c k e = absurd (omega arith)
table_of-push (x ∷ cs) (y ∷ ks) c k e = ap (λ t. (y, x) ∷ t) (table_of-push cs ks c k (omega arith))

-- The channel that `joinChannel` finds by its loop is the one that the table gives.
abbrev pub Finds : {A : Type 0} → ℤ → Table → Option (ℤ × Mediaplayer A) → Type 0
Finds id t none = ⊥
Finds id t (some (r, q)) =
    find_channel q.sn_channel_list q.userchannelid_list id ≡ some (lookup id t)

pushed-Finds :
    {A : Type 0} (info : Bytes) (k id : ℤ) (m : Mediaplayer A)
    → length m.sn_channel_list ≡ length m.userchannelid_list
    → Finds id
        (table_of m.sn_channel_list m.userchannelid_list ++ ((k, info) ∷ []))
        (push_channel info (some k) m)
unfolding push_channel
pushed-Finds info k id m e =
    find-lookup (m.sn_channel_list ++ (info ∷ [])) (m.userchannelid_list ++ (k ∷ [])) id
      (omega (arith, length-append m.sn_channel_list, length-append m.userchannelid_list, e))
    ∙ ap (λ t. some (lookup id t)) (table_of-push m.sn_channel_list m.userchannelid_list info k e)

-- With as many ids as channels, the two lists behind `registerChannel` are the table of before with the
-- new channel, under the number in its text, as the last entry: for every id, the loop of `joinChannel`
-- finds without an exception the channel that the table gives, which is the first that was registered
-- under the id.
pub register_refines :
    {A : Type 0} (info : Bytes) (k id : ℤ) (m : Mediaplayer A)
    → length m.sn_channel_list ≡ length m.userchannelid_list
    → user_channel_id info ≡ some k
    → Finds id
        (table_of m.sn_channel_list m.userchannelid_list ++ ((k, info) ∷ []))
        (register_channel info m)
unfolding register_channel
register_refines info k id m e u = rw u (pushed-Finds info k id m e)
