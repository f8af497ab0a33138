-- ===== src/Server.antt =====
-- One connection of the control socket: `_Conn` of linux/turbomac/daemon/server.py, with the messages of
-- linux/turbomac/protocol.py and its `Client`. A turn is one round of `_serve`: whether the server is
-- stopping, what is read, whether a write works, and what `dispatch` finds around it. JSON is decoded
-- already.
pub mod Dispatch
pub mod Ids
pub mod Calls
mod Tests
use text.Mathlib.Text.{◌==◌ as str_eq}
use turbo_mac.Prelude.{
  ℕ, ◌*◌, Bool, true, false, ◌||◌, not, Option, none, some, List, [], ◌∷◌, ◌++◌, String,
  if◌then◌else◌, ltb,
}
use turbo_mac.Dict.{Dict}
use turbo_mac.Config.{Value, null}

-- MAX_REQUEST
abbrev pub max_request : ℕ
max_request = 64 * 1024

-- What `dispatch` does: a result; a KeyError, ValueError or TypeError; another exception.
pub data Result (V : Type 0) : Type 0 where
  value : V → Result V
  refuses raises : String → Result V

-- A decoded request: `cmd` is none if it is no string, `args` if it is no object, after `or {}`.
pub record Request : Type 0 where
  pub cmd : Option String
  pub args : Option (Dict Value)
  pub id : Value

-- What `decode` makes of a line: a ValueError, the RecursionError of a line that is nested too deeply,
-- or an object.
pub data Decoded : Type 0 where
  bad : String → Decoded
  too_deep : Decoded
  object : Request → Decoded

-- What `readline` gives: an OSError, the end, or a line.
pub data Read : Type 0 where
  fails ends : Read
  line : (length : ℕ) → (newline : Bool) → Decoded → Read

-- The messages of `_serve`; the texts of errors by their parts.
pub data Fault : Type 0 where
  too_long : Fault
  bad_request : String → Fault
  bad_cmd : Fault
  refused : String → Fault
  internal : String → Fault

-- `ok` and `error`
pub data Reply (V : Type 0) : Type 0 where
  ok : V → (id : Value) → Reply V
  error : Fault → (id : Value) → Reply V

pub record Turn (Env : Type 0) : Type 0 where
  pub stopping : Bool
  pub read : Read
  pub delivers : Bool
  pub env : Env

-- What the server is given: its `dispatch`.
pub record Handler : Type 1 where
  pub World : Type 0
  pub Env : Type 0
  pub V : Type 0
  pub dispatch : Env → String → Dict Value → World → Result V × World

-- The replies that were written, in their order.
pub record Conn (h : Handler) : Type 0 where
  pub world : h.World
  pub replies : List (Reply h.V)

unfoldable pub reply_of : {V : Type 0} → Result V → Value → Reply V
reply_of (value v) id = ok v id
reply_of (refuses text) id = error (refused text) id
reply_of (raises text) id = error (internal text) id

-- `len(line) > MAX_REQUEST or not line.endswith(b"\n")`
unfoldable pub is_too_long : (length : ℕ) → (newline : Bool) → Bool
is_too_long length newline = ltb max_request length || not newline

unfoldable pub is_subscribe : Request → Bool
is_subscribe r = elim r.cmd [
  | none ↦ false
  | some cmd ↦ elim r.args [ none ↦ false | some args ↦ str_eq cmd "subscribe" ]
]

module _ {h : Handler} where
  -- `_send`
  unfoldable pub send : (delivers : Bool) → Reply h.V → Conn h → Conn h
  send delivers r c = if delivers then record c { replies = c.replies ++ r ∷ [] } else c

  -- A command that is dispatched.
  unfoldable pub answer : h.Env → (delivers : Bool) → String → Dict Value → Value → Conn h → Conn h
  answer env delivers cmd args id c =
      let r = h.dispatch env cmd args c.world in
      send delivers (reply_of r.0 id) (record c { world = r.1 })

  -- A round of `_subscribe`, and whether it goes on: it ends when a write fails, or `dispatch` raises.
  unfoldable pub push : h.Env → (delivers : Bool) → Value → Conn h → Bool × Conn h
  push env delivers id c =
      let r = h.dispatch env "status" [] c.world in
      let c' = record c { world = r.1 } in
      elim r.0 [ value v ↦ (delivers, send delivers (ok v id) c') | _ ↦ (false, c') ]

  -- `_subscribe`
  unfoldable pub subscribe : Value → List (Turn h.Env) → Conn h → Conn h
  subscribe id [] c = c
  subscribe id (t ∷ rest) c =
      let r = push t.env t.delivers id c in
      let later = subscribe id rest r.1 in if t.stopping then c else if r.0 then later else r.1

  -- A request that does not subscribe.
  unfoldable pub serve_request : Turn h.Env → Request → Conn h → Conn h
  serve_request t r c = elim r.cmd [
    | none ↦ send t.delivers (error bad_cmd r.id) c
    | some cmd ↦ elim r.args [
      | none ↦ send t.delivers (error bad_cmd r.id) c
      | some args ↦ answer t.env t.delivers cmd args r.id c
    ]
  ]

  -- What a round does with what is read; `next` is the rest of the loop. `_serve` catches no
  -- RecursionError: the connection ends.
  unfoldable pub take_line :
      (next : Conn h → Conn h) → List (Turn h.Env) → Turn h.Env → Decoded → Conn h → Conn h
  take_line next rest t (bad text) c = next (send t.delivers (error (bad_request text) null) c)
  take_line next rest t too_deep c = c
  take_line next rest t (object r) c =
      if is_subscribe r then subscribe r.id rest c else next (serve_request t r c)

  unfoldable pub take_read :
      (next : Conn h → Conn h) → List (Turn h.Env) → Turn h.Env → Read → Conn h → Conn h
  take_read next rest t fails c = c
  take_read next rest t ends c = c
  take_read next rest t (line length newline decoded) c =
      if is_too_long length newline
      then send t.delivers (error too_long null) c
      else take_line next rest t decoded c

  -- `_serve`. The list of turns ends where the thread still waits.
  unfoldable pub serve : List (Turn h.Env) → Conn h → Conn h
  serve [] c = c
  serve (t ∷ rest) c = if t.stopping then c else take_read (λ c'. serve rest c') rest t t.read c

-- What `Client.call` gives: the result; a ProtocolError with the text of the error; or one that the
-- connection was closed.
pub data Called (V : Type 0) : Type 0 where
  result : V → Called V
  failed : Fault → Called V
  no_reply : Called V

unfoldable pub call : {V : Type 0} → List (Reply V) → Called V
call [] = no_reply
call (ok v id ∷ rest) = result v
call (error f id ∷ rest) = failed f
