-- ===== src/Adapter.antt =====
-- adapter.go, `responseWriter`: the headers that handlers set, and the response of fasthttp that they
-- are added to.
pub mod Laws
mod Tests
use gofi.Prelude.{
  ℕ, Bool, true, false, not, ◌||◌, Option, none, some, List, [], ◌∷◌, ◌++◌, if◌then◌else◌, Bytes,
}
use gofi.Store.{Items, get, set}

-- The response of fasthttp. Its headers have a type of that library, and `Add` is a parameter below.
pub record Response (H : Type 0) : Type 0 where
  pub headers : H
  pub status : ℕ
  pub body : Bytes

-- `responseWriter`. The entries of `header` stand in an order in which the code may go over its map.
pub record ResponseWriter (H : Type 0) : Type 0 where
  pub header : Items (List Bytes)
  pub header_sync : Bool
  pub header_init : Bool
  pub response : Response H

-- What a handler does with its writer. The keys are in their canonical form.
pub data WriterCall : Type 0 where
  set_value : Bytes → Bytes → WriterCall
  add_value : Bytes → Bytes → WriterCall
  write_bytes : Bytes → WriterCall
  write_status : ℕ → WriterCall

-- http.Header, `Set` and `Add`
abbrev pub old_values : Option (List Bytes) → List Bytes
old_values none = []
old_values (some vs) = vs

unfoldable pub change : WriterCall → Items (List Bytes) → Items (List Bytes)
unfolding set get
change (set_value key v) h = set h key (v ∷ [])
change (add_value key v) h = set h key (old_values (get h key) ++ v ∷ [])
change (write_bytes b) h = h
change (write_status code) h = h

module _ {H : Type 0} where
  -- `newResponseWriter`, and `reset` of a writer that is used again
  abbrev pub new_response_writer : Response H → ResponseWriter H
  new_response_writer r = record {
    header = [];
    header_sync = false;
    header_init = false;
    response = r;
  }

  abbrev pub reset : Response H → ResponseWriter H → ResponseWriter H
  reset r w = record w { header = []; header_sync = false; header_init = false; response = r }

  -- `Header`
  abbrev pub init_header : ResponseWriter H → ResponseWriter H
  init_header w = if not w.header_init then record w { header = []; header_init = true } else w

  abbrev pub change_header : WriterCall → ResponseWriter H → ResponseWriter H
  change_header c w = let w' = init_header w in record w' { header = change c w'.header }

module _ {H : Type 0} (add : Bytes → Bytes → H → H) where
  -- The loops of `syncHeaders`.
  unfoldable pub add_values : Bytes → List Bytes → H → H
  add_values key [] h = h
  add_values key (v ∷ vs) h = add_values key vs (add key v h)

  unfoldable pub add_all : Items (List Bytes) → H → H
  unfolding add_values
  add_all [] h = h
  add_all ((key, vs) ∷ entries) h = add_all entries (add_values key vs h)

  unfoldable pub sync_headers : ResponseWriter H → ResponseWriter H
  unfolding add_all
  sync_headers w = if not w.header_init || w.header_sync then w else record w {
    header_sync = true;
    response = record w.response { headers = add_all w.header w.response.headers };
  }

  abbrev pub sync_first : ResponseWriter H → ResponseWriter H
  sync_first w = if not w.header_sync then sync_headers w else w

  -- `Write` and `WriteHeader`
  abbrev pub write : Bytes → ResponseWriter H → ResponseWriter H
  write b w =
      let w' = sync_first w in
      record w' { response = record w'.response { body = w'.response.body ++ b } }

  abbrev pub write_header : ℕ → ResponseWriter H → ResponseWriter H
  write_header code w =
      let w' = sync_first w in record w' { response = record w'.response { status = code } }

  unfoldable pub step : WriterCall → ResponseWriter H → ResponseWriter H
  unfolding sync_headers change
  step (set_value key v) w = change_header (set_value key v) w
  step (add_value key v) w = change_header (add_value key v) w
  step (write_bytes b) w = write b w
  step (write_status code) w = write_header code w

  unfoldable pub steps : List WriterCall → ResponseWriter H → ResponseWriter H
  unfolding step
  steps [] w = w
  steps (c ∷ cs) w = steps cs (step c w)

  -- A request: the calls of its handlers, then the flush of the router.
  unfoldable pub respond : List WriterCall → Response H → Response H
  unfolding steps sync_headers
  respond cs r = (sync_headers (steps cs (new_response_writer r))).response
