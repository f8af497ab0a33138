-- ===== src/Server/Calls.antt =====
-- A call of `Client` (linux/turbomac/protocol.py) at the server (linux/turbomac/daemon/server.py).
use text.Mathlib.Text.{◌==◌ as str_eq}
use turbo_mac.Prelude.{◌≡◌, refl, true, false, some, [], ◌∷◌, String, ℕ}
use turbo_mac.Dict.{Dict}
use turbo_mac.Config.{Value, null}
use turbo_mac.Server.{
  Result, value, refuses, raises, object, line, refused, internal, Turn, Handler, Conn, send,
  reply_of, answer, is_too_long, is_subscribe, serve_request, take_line, take_read, serve, Called,
  result, failed, call,
}

-- What `dispatch` gives, for the caller.
abbrev pub told : {V : Type 0} → Result V → Called V
told (value v) = result v
told (refuses text) = failed (refused text)
told (raises text) = failed (internal text)

call-reply_of : {V : Type 0} (r : Result V) (id : Value) → call (reply_of r id ∷ []) ≡ told r
unfolding call reply_of
call-reply_of (value v) id = refl
call-reply_of (refuses text) id = refl
call-reply_of (raises text) id = refl

-- The turn of a request with the command and the arguments.
abbrev pub turn : {Env : Type 0} → Env → (length : ℕ) → String → Dict Value → Turn Env
turn env length cmd args = record {
  stopping = false;
  read = line length true (object (record { cmd = some cmd; args = some args; id = null }));
  delivers = true;
  env = env;
}

module _ (h : Handler) where
  -- A call whose line is not too long and whose command is not `subscribe`, at a server that is not
  -- stopping: it gives what `dispatch` gives, and leaves the world as `dispatch` leaves it.
  pub call-serve :
      (env : h.Env) (length : ℕ) (cmd : String) (args : Dict Value) (w : h.World)
      → is_too_long length true ≡ false
      → str_eq cmd "subscribe" ≡ false
      → let c : Conn h =
          serve (turn env length cmd args ∷ []) (record { world = w; replies = [] }) in
        let r = h.dispatch env cmd args w in (call c.replies ≡ told r.0) × (c.world ≡ r.1)
  unfolding serve take_read take_line serve_request answer send is_subscribe
  call-serve env length cmd args w fits other =
      rw (fits, other) (call-reply_of (h.dispatch env cmd args w).0 null, refl)
