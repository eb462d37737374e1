-- ===== src/Http.antt =====
-- What the middleware uses of Go's `net/http`: a request with the principal that its context
-- carries, a response writer, and handlers over a state. Header names are spelled as the code
-- spells them; a missing header, query parameter or URL parameter is the empty text.
use Prim.Native.String.{◌++◌ as append}
use amankan.Prelude.{ℕ, code, String, Option, none, some, List, [], ◌∷◌, ◌++◌, ◌==◌, if◌then◌else◌}
use amankan.Auth.Roles.{Principal}

pub record Request : Type 0 where
  pub method : String
  pub path : String
  pub header : String → String
  pub query : String → String
  pub url_param : String → String
  pub remote_addr : String
  pub principal : Option Principal

-- The response so far: `status` is none until the first WriteHeader.
pub record Writer : Type 0 where
  pub header : String → List String
  pub status : Option ℕ
  -- the status of a recorder around the writer: the last code of WriteHeader
  pub recorded : ℕ
  pub body : String

abbrev pub fresh_writer : Writer
fresh_writer = record { header = λ _. []; status = none; recorded = 200; body = "" }

abbrev pub Handler : Type 0 → Type 0
Handler S = Writer → Request → S → Writer × S

-- w.Header().Set(k, v) and w.Header().Add(k, v)
unfoldable pub set_header : Writer → String → String → Writer
set_header w k v = record w { header = λ j. if j == k then v ∷ [] else w.header j }

unfoldable pub add_header : Writer → String → String → Writer
add_header w k v = record w { header = λ j. if j == k then w.header j ++ v ∷ [] else w.header j }

-- w.WriteHeader(code): only the first call counts.
abbrev keep : Option ℕ → ℕ → Option ℕ
keep none code = some code
keep (some first) code = some first

unfoldable pub write_header : Writer → ℕ → Writer
write_header w code = record w { status = keep w.status code; recorded = code }

unfoldable pub write_body : Writer → String → Writer
unfolding write_header
write_body w text = record w { status = keep w.status 200; body = append w.body text }

-- The status that the client sees.
abbrev pub sent_status : Writer → ℕ
sent_status w = elim w.status [ none ↦ 200 | some code ↦ code ]
