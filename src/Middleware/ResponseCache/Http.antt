-- ===== src/Middleware/ResponseCache/Http.antt =====
-- What the response cache uses of net/http and gin: header maps, requests and response writers.
use notevault.Prelude.{ℕ, Option, none, some, List, [], ◌∷◌, ◌++◌, Text}
use notevault.Prelude.Assoc.{Assoc, lookup, insert}

-- `http.Header`: the values under each name.
abbrev pub Header : Type 0
Header = Assoc (List Text)

pub record Request : Type 0 where
  pub method : Text
  -- the template of the route, empty without one
  pub full_path : Text
  pub url_path : Text
  pub query : Assoc (List Text)
  pub header : Text → Text

-- The response writer of gin v1.10.1, by its documented behaviour: the first write, or `WriteHeaderNow`,
-- sends the status and the header as they are then; a later status is ignored, and later changes of
-- the header stay on the server.
pub record Writer : Type 0 where
  pub status : ℕ
  pub header : Header
  pub sent : Option Header
  pub body : Text

-- The calls of the rest of the chain on its writer.
pub data Action : Type 0 where
  set_header : Text → Text → Action
  set_status : ℕ → Action
  -- `Write`
  write_body : Text → Action
  -- `WriteString`
  write_string : Text → Action
  -- `WriteHeaderNow`
  send_header : Action

abbrev pub first_value : Option (List Text) → Text
first_value none = []
first_value (some []) = []
first_value (some (v ∷ vs)) = v

-- `canonical` is the form in which net/http keeps a header's name.
module _ (canonical : Text → Text) where
  -- `h.Get(name)`
  unfoldable pub header_get : Header → Text → Text
  unfolding lookup
  header_get h name = first_value (lookup (canonical name) h)

  -- `h.Set(name, value)`
  unfoldable pub header_set : Text → Text → Header → Header
  unfolding insert
  header_set name value h = insert (canonical name) (value ∷ []) h

  abbrev pub with_header : Text → Text → Writer → Writer
  with_header name value w = record w { header = header_set name value w.header }

  abbrev pub with_status : ℕ → Writer → Writer
  with_status status w = elim w.sent [ none ↦ record w { status = status } | some h ↦ w ]

  abbrev sent_now : Writer → Option Header
  sent_now w = elim w.sent [ some h ↦ some h | none ↦ some w.header ]

  abbrev pub with_sent : Writer → Writer
  with_sent w = record w { sent = sent_now w }

  unfoldable pub write : Text → Writer → Writer
  write b w = let sent = with_sent w in record sent { body = w.body ++ b }

  -- One call of the chain, on a plain writer.
  unfoldable pub act : Action → Writer → Writer
  unfolding write header_set
  act (set_header name value) w = with_header name value w
  act (set_status status) w = with_status status w
  act (write_body b) w = write b w
  act (write_string b) w = write b w
  act send_header w = with_sent w

  unfoldable pub act_all : List Action → Writer → Writer
  unfolding act
  act_all [] w = w
  act_all (a ∷ actions) w = act_all actions (act a w)

abbrev pub new_writer : Writer
new_writer = record { status = 200; header = []; sent = none; body = [] }
