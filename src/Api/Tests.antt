-- ===== src/Api/Tests.antt =====
-- Pages of a short list, and requests to routes with an audit log.
use amankan.Prelude.{
  ℕ, suc, ◌≤◌, ◌<◌, ◌≡◌, refl, ◌⊎◌, true, none, some, List, [], ◌∷◌, ◌==◌, if◌then◌else◌, length,
  take, drop,
}
use amankan.Strconv.{itoa}
use amankan.Http.{Request, Writer, Handler, fresh_writer, write_header}
use amankan.Auth.Roles.{viewer, analyst, Principal, rank}
use amankan.Auth.{Authenticator, lookup, bearer, write_error}
use amankan.Audit.{Platform}
use amankan.Audit.Log.{AuditLog, empty_log, commits}
use amankan.Api.{page_params, paginate, is_mutating, serve}
use amankan.Api.Paging.{paginate-page}
use amankan.Api.Trail.{Recorded, audit_trail}

api : Unit {0}
unfolding serve paginate lookup bearer is_mutating
api = tt

abbrev request : Request
request = record {
  method = "POST";
  path = "/api/v1/assets";
  header = λ k. if k == "X-API-Key" then "k1" else "";
  query = λ k. if k == "limit" then "2" else if k == "offset" then "1" else "";
  url_param = λ _. "";
  remote_addr = "10.0.0.1:4242";
  principal = none;
}

abbrev items : List ℕ
items = 10 ∷ 20 ∷ 30 ∷ 40 ∷ []

second_page : (paginate fresh_writer request items).1 ≡ 20 ∷ 30 ∷ []
unfolding api
second_page = refl

paginate-page_example :
    ((paginate fresh_writer request items).1
      ≡ take (page_params request).0 (drop (page_params request).1 items))
    × (length (paginate fresh_writer request items).1 ≤ 1000)
    × ((paginate fresh_writer request items).0.header "X-Total-Count" ≡ itoa 4 ∷ [])
paginate-page_example = paginate-page fresh_writer request items

abbrev ci : Principal
ci = record { id = "ci"; role = viewer }

abbrev keys : Authenticator
keys = record { keys = ("k1", ci) ∷ []; enabled = true }

abbrev platform : Platform
platform = record { format_ts = λ t. itoa t; sha256_hex = λ t. t; stored_ts = λ t. t }

-- A handler that answers 201 and counts.
abbrev counting : Handler ℕ
counting w r n = (write_header w 201, suc n)

abbrev answered : Writer × (AuditLog × ℕ)
answered = serve platform commits 5 keys analyst counting fresh_writer request (empty_log, 0)

abbrev counted : Principal → Writer × ℕ
counted q =
    counting (record fresh_writer { recorded = 200 }) (record request { principal = some q }) 0

audit_trail_example :
    ((lookup keys (bearer request) ≡ none)
      × (answered ≡ (write_error fresh_writer 401 "missing or invalid API key", (empty_log, 0))))
    ⊎ ((q : Principal) × (lookup keys (bearer request) ≡ some q)
        × (rank q.role < rank analyst)
        × (answered.0.recorded ≡ 403)
        × (answered.1.1 ≡ 0)
        × Recorded platform commits 5 keys analyst counting fresh_writer request empty_log 0 commits
            q 403 answered.1.0)
    ⊎ ((q : Principal) × (lookup keys (bearer request) ≡ some q)
        × (rank analyst ≤ rank q.role)
        × (answered.0 ≡ (counted q).0)
        × (answered.1.1 ≡ (counted q).1)
        × Recorded platform commits 5 keys analyst counting fresh_writer request empty_log 0 commits
            q answered.0.recorded answered.1.0)
audit_trail_example =
    audit_trail platform commits 5 keys analyst counting fresh_writer request empty_log 0 refl
      (unfold api in refl)
