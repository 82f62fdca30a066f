-- ===== src/Http2/Streams/Laws.antt =====
-- What the handlers of Cutelyst/Server/protocolhttp2.cpp keep of the connection.
use cutelyst.Common.{
  ℕ, ◌≤◌, List, [], ◌∷◌, Bool, true, false, All, All-append, Bool-cases, inl, inr, Option, none,
  some, ◌==◌, if◌then◌else◌, ◌≡◌, refl, subst, arith,
}
use cutelyst.Hpack.Table.{HPack}
use cutelyst.Hpack.Table.Laws.{IsValid}
use cutelyst.Hpack.Decoder.Invariants.{IsSound}
use cutelyst.Http2.Frames.{Stream, Event, queued, connection_close, Connection, emit, send_go_away}
use cutelyst.Http2.Frames.Laws.{Writes, send_go_away-Writes}
use cutelyst.Http2.Streams.{
  Server, Handled, handled, refused, undefined, from_send, find_stream, put_stream, with_stream,
  go_away,
}

abbrev pub IsTable : Option HPack → Type 0
IsTable none = Unit {0}
IsTable (some h) = IsValid h

-- A stream with sound fields, under an identifier that was counted.
abbrev pub IsStream : ℕ → Stream → Type 0
IsStream max_stream_id s = IsSound s.request × (s.stream_id ≤ max_stream_id)

abbrev pub IsEvent : Event → Type 0
IsEvent (queued id request body) = IsSound request
IsEvent connection_close = Unit {0}

abbrev pub IsConnection : Connection → Type 0
IsConnection c = IsTable c.hpack × All (IsStream c.max_stream_id) c.streams × All IsEvent c.events

pub data Keeps : Handled → Type 0 where
  on : {c : Connection} → IsConnection c → Keeps (handled c)
  off : {c : Connection} → IsConnection c → Keeps (refused c)
  nothing : Keeps undefined

find_stream-IsStream :
    (m id : ℕ) (streams : List Stream) (s : Stream)
    → All (IsStream m) streams
    → find_stream id streams ≡ some s
    → IsStream m s
unfolding find_stream
find_stream-IsStream m id [] s h e = cc
find_stream-IsStream m id (t ∷ streams) s (ht, h) e = elim (Bool-cases (t.stream_id == id)) [
  | inl q ↦ let same : t ≡ s = ground (arith, q, e) in subst (IsStream m) same ht
  | inr q ↦ find_stream-IsStream m id streams s h (ground (arith, q, e))
]

put_stream-IsStream :
    (m : ℕ) (s : Stream) (streams : List Stream)
    → IsStream m s
    → All (IsStream m) streams
    → All (IsStream m) (put_stream s streams)
unfolding put_stream
put_stream-IsStream m s [] hs h = (hs, tt)
put_stream-IsStream m s (t ∷ streams) hs (ht, h) = elim (Bool-cases (t.stream_id == s.stream_id)) [
  | inl q ↦ rw q (hs, h)
  | inr q ↦ rw q (ht, put_stream-IsStream m s streams hs h)
]

pub IsStream-later :
    (m n : ℕ) (streams : List Stream) → m ≤ n → All (IsStream m) streams → All (IsStream n) streams
IsStream-later m n [] le h = tt
IsStream-later m n (s ∷ streams) le ((sound, under), h) =
    ((sound, omega arith), IsStream-later m n streams le h)

-- What is only written does not matter.
pub Writes-IsConnection : (c c' : Connection) → Writes c c' → IsConnection c → IsConnection c'
Writes-IsConnection c c' (out, e) h = rw e h

pub Keeps-if :
    (b : Bool) (x y : Handled)
    → (b ≡ true → Keeps x)
    → (b ≡ false → Keeps y)
    → Keeps (if b then x else y)
Keeps-if true x y f g = f refl
Keeps-if false x y f g = g refl

pub from_send-Keeps : (r : Connection × Bool) → IsConnection r.0 → Keeps (from_send r)
from_send-Keeps (c, true) h = on h
from_send-Keeps (c, false) h = off h

pub with_stream-IsConnection :
    (s : Stream) (c : Connection)
    → IsStream c.max_stream_id s
    → IsConnection c
    → IsConnection (with_stream s c)
with_stream-IsConnection s c hs (table, streams, events) =
    (table, put_stream-IsStream c.max_stream_id s c.streams hs streams, events)

pub emit-IsConnection :
    (e : Event) (c : Connection) → IsEvent e → IsConnection c → IsConnection (emit e c)
emit-IsConnection e c he (table, streams, events) =
    (table, streams, All-append IsEvent c.events (e ∷ []) events (he, tt))

module _ (server : Server) where
  pub go_away-Keeps : (error : ℕ) (c : Connection) → IsConnection c → Keeps (go_away server error c)
  go_away-Keeps error c h =
      from_send-Keeps (send_go_away server.takes error c)
        (Writes-IsConnection c _ (send_go_away-Writes server.takes c error) h)

-- A stream that is looked up is one of the connection's.
pub Keeps-found :
    (id : ℕ) (c : Connection) (o : Option Stream) (x : Handled) (f : Stream → Handled)
    → find_stream id c.streams ≡ o
    → IsConnection c
    → Keeps x
    → ((s : Stream) → IsStream c.max_stream_id s → Keeps (f s))
    → Keeps (elim o [ none ↦ x | some s ↦ f s ])
Keeps-found id c none x f e h missing there = missing
Keeps-found id c (some s) x f e (_, streams, _) missing there =
    there s (find_stream-IsStream c.max_stream_id id c.streams s streams e)
