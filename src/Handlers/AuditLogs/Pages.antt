-- ===== src/Handlers/AuditLogs/Pages.antt =====
-- internal/handlers/audit.go over internal/store/audit.go: a client that reads the audit log page by page.
use gslb.Prelude.{
  ℕ, ◌+◌, ◌*◌, ◌≤◌, zero, suc, max_int, atoi-decimal, decimal, String, Option, none, some, ◌≡◌,
  refl, List, [], ◌++◌, str_eq, false, length, filter_by, arith,
}
use gslb.Prelude.Dict.{Dict, lookup, insert, lookup-insert}
use gslb.Types.{AuditLog}
use gslb.Store.Sql.{statement, calm}
use gslb.Store.Audit
use gslb.Store.Audit.{Logs, matches}
use gslb.Store.Audit.Pages.{page, read_pages, read_pages-all}
use gslb.Handlers.Api.{Response}
use gslb.Handlers.AuditLogs.{
  audit_log_store, default_query, filter_of, list_audit_logs, get_audit_log_count,
}

abbrev logs_of : Response (List AuditLog) → List AuditLog
logs_of reply = elim reply.body [ none ↦ [] | some logs ↦ logs ]

module _ (parse_time : String → Option ℕ) (query : Dict String) where
  -- The request for a page: the query with the limit and the offset in decimals.
  abbrev pub page_query : ℕ → ℕ → Dict String
  page_query size start = insert "limit" (decimal size) (insert "offset" (decimal start) query)

  -- A page of `size` entries from a place on, as the server answers, and the next `count` pages in a row.
  unfoldable pub served_page : ℕ → ℕ → Logs → List AuditLog
  served_page size start db =
      logs_of (list_audit_logs audit_log_store parse_time (page_query size start) (calm db)).0

  unfoldable pub served_pages : ℕ → ℕ → ℕ → Logs → List AuditLog
  served_pages size zero start db = []
  served_pages size (suc count) start db =
      served_page size start db ++ served_pages size count (start + size) db

  other_key :
      (key default : String) (size start : ℕ)
      → str_eq "limit" key ≡ false
      → str_eq "offset" key ≡ false
      → default_query key default (page_query size start) ≡ default_query key default query
  other_key key default size start l o = ground (
    arith,
    l,
    o,
    lookup-insert "limit" key (decimal size) (insert "offset" (decimal start) query),
    lookup-insert "offset" key (decimal start) query,
  )

  same_filter :
      (size start : ℕ) → filter_of parse_time (page_query size start) ≡ filter_of parse_time query
  unfolding filter_of
  same_filter size start =
      rw
        (
          other_key "user_id" "" size start refl refl,
          other_key "entity_type" "" size start refl refl,
          other_key "action" "" size start refl refl,
          other_key "from" "" size start refl refl,
          other_key "to" "" size start refl refl,
        )
        refl

  written :
      (size start : ℕ)
      → (lookup "limit" (page_query size start) ≡ some (decimal size))
        × (lookup "offset" (page_query size start) ≡ some (decimal start))
  written size start = ground (
    arith,
    lookup-insert "limit" "limit" (decimal size) (insert "offset" (decimal start) query),
    lookup-insert "limit" "offset" (decimal size) (insert "offset" (decimal start) query),
    lookup-insert "offset" "offset" (decimal start) query,
  )

  served_page-page :
      (size start : ℕ) (db : Logs)
      → suc size ≤ 1000
      → start ≤ max_int
      → served_page (suc size) start db ≡ page (filter_of parse_time query) (suc size) start db
  unfolding list_audit_logs served_page page Audit.list_audit_logs statement
  served_page-page size start db s o = ground (
    arith,
    same_filter (suc size) start,
    written (suc size) start,
    atoi-decimal (suc size) (omega (arith, s)),
    atoi-decimal start o,
  )

  served_pages-read_pages :
      (size count start : ℕ) (db : Logs)
      → suc size ≤ 1000
      → start + count * suc size ≤ max_int
      → served_pages (suc size) count start db
        ≡ read_pages (filter_of parse_time query) (suc size) count start db
  unfolding served_pages read_pages
  served_pages-read_pages size zero start db s o = refl
  served_pages-read_pages size (suc count) start db s o =
      rw
        (
          served_page-page size start db s (omega (arith, o)),
          served_pages-read_pages size count (start + suc size) db s (omega (arith, o)),
        )
        refl

-- A client asks GetAuditLogCount with any query, and ListAuditLogs with the same query and a limit of one to
-- a thousand entries for as many pages, one after the other. The pages are in a row exactly the entries of
-- the table that the filter of the query lets through, in their order, and as many as was answered, where
-- the database refuses no query and the offsets stay below 2^63.
pub served_pages-all :
    (parse_time : String → Option ℕ) (query : Dict String) (size count : ℕ) (db : Logs)
    → suc size ≤ 1000
    → count * suc size ≤ max_int
    → (get_audit_log_count audit_log_store parse_time query (calm db)).0.body ≡ some count
    → (served_pages parse_time query (suc size) count 0 db
        ≡ filter_by (matches (filter_of parse_time query)) db.rows)
      × (length (served_pages parse_time query (suc size) count 0 db) ≡ count)
unfolding get_audit_log_count Audit.count_audit_logs statement
served_pages-all parse_time query size count db s o answered =
    rw (served_pages-read_pages parse_time query size count 0 db s (omega (arith, o)))
      (read_pages-all (filter_of parse_time query) size count db s (ground (arith, answered)))
