-- ===== src/Server/Ids.antt =====
-- The replies of a connection (linux/turbomac/daemon/server.py) and the requests that they answer.
use mathlib.Core.List.{map-append, append-nil, append_assoc}
use turbo_mac.Prelude.{
  ◌≡◌, refl, sym, ap, ◌∙◌, true, false, Option, none, some, List, [], ◌∷◌, ◌++◌, map, String, All,
}
use turbo_mac.Dict.{Dict}
use turbo_mac.Config.{Value, null}
use turbo_mac.Server.{
  Result, value, refuses, raises, Request, bad, too_deep, object, Read, fails, ends, line, Reply,
  ok, error, Turn, Handler, Conn, send, reply_of, answer, is_too_long, is_subscribe, serve_request,
  take_read, take_line, serve, bad_cmd, bad_request,
}

abbrev pub id_of : {V : Type 0} → Reply V → Value
id_of (ok v id) = id
id_of (error f id) = id

-- The id of a request, null for a line that is no object.
abbrev pub asked_id : Read → Value
asked_id (line length newline (object r)) = r.id
asked_id _ = null

-- A round in which the server goes on, a whole line of an allowed length comes that is decoded or refused
-- with a ValueError and does not subscribe, and the reply is written.
abbrev pub IsWhole : Read → Type 0
IsWhole fails = ⊥
IsWhole ends = ⊥
IsWhole (line length newline (bad text)) = is_too_long length newline ≡ false
IsWhole (line length newline too_deep) = ⊥
IsWhole (line length newline (object r)) =
    (is_too_long length newline ≡ false) × (is_subscribe r ≡ false)

abbrev pub IsServed : {Env : Type 0} → Turn Env → Type 0
IsServed t = (t.stopping ≡ false) × (t.delivers ≡ true) × IsWhole t.read

abbrev pub ids : {Env : Type 0} → List (Turn Env) → List Value
ids [] = []
ids (t ∷ rest) = asked_id t.read ∷ ids rest

reply_of-id : {V : Type 0} (r : Result V) (id : Value) → id_of (reply_of r id) ≡ id
unfolding reply_of
reply_of-id (value v) id = refl
reply_of-id (refuses text) id = refl
reply_of-id (raises text) id = refl

module _ {h : Handler} where
  all_ids : Conn h → List Value
  all_ids c = map id_of c.replies

  send-ids : (r : Reply h.V) (c : Conn h) → all_ids (send true r c) ≡ all_ids c ++ id_of r ∷ []
  unfolding all_ids send
  send-ids r c = map-append id_of c.replies (r ∷ [])

  answer-ids :
      (env : h.Env) (cmd : String) (args : Dict Value) (id : Value) (c : Conn h)
      → all_ids (answer env true cmd args id c) ≡ all_ids c ++ id ∷ []
  unfolding answer all_ids
  answer-ids env cmd args id c =
      let r = h.dispatch env cmd args c.world in
      send-ids (reply_of r.0 id) (record c { world = r.1 })
      ∙ ap (λ i. map id_of c.replies ++ i ∷ []) (reply_of-id r.0 id)

  serve_request-ids :
      (t : Turn h.Env) (r : Request) (c : Conn h)
      → t.delivers ≡ true
      → all_ids (serve_request t r c) ≡ all_ids c ++ r.id ∷ []
  unfolding serve_request
  serve_request-ids t r c d = by_parts r.cmd r.args
    where
      by_parts :
          (cmd : Option String) (args : Option (Dict Value))
          → all_ids (elim cmd [
            | none ↦ send t.delivers (error bad_cmd r.id) c
            | some name ↦ elim args [
              | none ↦ send t.delivers (error bad_cmd r.id) c
              | some a ↦ answer t.env t.delivers name a r.id c
            ]
          ])
            ≡ all_ids c ++ r.id ∷ []
      by_parts none args = rw d (send-ids (error bad_cmd r.id) c)
      by_parts (some name) none = rw d (send-ids (error bad_cmd r.id) c)
      by_parts (some name) (some a) = rw d (answer-ids t.env name a r.id c)

  take_read-ids :
      (next : Conn h → Conn h) (rest : List (Turn h.Env)) (t : Turn h.Env) (r : Read) (c : Conn h)
      → ((c' : Conn h) → all_ids (next c') ≡ all_ids c' ++ ids rest)
      → t.delivers ≡ true
      → IsWhole r
      → all_ids (take_read next rest t r c) ≡ all_ids c ++ asked_id r ∷ ids rest
  unfolding take_read take_line
  take_read-ids next rest t fails c later d whole = absurd whole
  take_read-ids next rest t ends c later d whole = absurd whole
  take_read-ids next rest t (line length newline (bad text)) c later d whole = rw whole (
      later _
      ∙ ap (λ l. l ++ ids rest) (rw d (send-ids (error (bad_request text) null) c))
      ∙ append_assoc (all_ids c) (null ∷ []) (ids rest))
  take_read-ids next rest t (line length newline too_deep) c later d whole = absurd whole
  take_read-ids next rest t (line length newline (object r)) c later d whole =
      rw (whole.0, whole.1)
        (later _
          ∙ ap (λ l. l ++ ids rest) (serve_request-ids t r c d)
          ∙ append_assoc (all_ids c) (r.id ∷ []) (ids rest))

  -- A connection whose lines are whole, of an allowed length, each decoded or refused with a ValueError
  -- (none nested so deeply that the decoder gives up), and none of them `subscribe`, while the server does
  -- not stop and the writes work, is answered line by line: there is one reply for each line, in their
  -- order and with their ids; a line that is refused is answered with the id null, and does not end the
  -- connection.
  pub serve-ids :
      (turns : List (Turn h.Env)) (c : Conn h)
      → All IsServed turns
      → map id_of (serve turns c).replies ≡ map id_of c.replies ++ ids turns
  unfolding serve all_ids
  serve-ids [] c served = sym (append-nil (map id_of c.replies))
  serve-ids (t ∷ rest) c ((going, delivers, whole), served) = simp going (
      take_read-ids (λ c'. serve rest c') rest t t.read c (λ c'. serve-ids rest c' served) delivers
        whole)
