-- ===== src/Store/Audit/Pages.antt =====
-- internal/store/audit.go: the pages of the audit log, and what they have in common with the count.
use gslb.Prelude.{
  ℕ, ◌+◌, ◌≤◌, zero, suc, pos, ◌≡◌, refl, ap, sym, List, [], ◌∷◌, ◌++◌, length, take, drop,
  filter_by, arith,
}
use gslb.Types.{AuditLog}
use mathlib.Core.Path.{subst}
use gslb.Result.{Result, ok, err}
use gslb.Store.Sql.{statement, calm}
use gslb.Store.Audit.{Logs, AuditLogFilter, matches, list_audit_logs, count_audit_logs}

module _ {A : Type 0} where
  take-drop : (n : ℕ) (rows : List A) → take n rows ++ drop n rows ≡ rows
  take-drop zero rows = refl
  take-drop (suc n) [] = refl
  take-drop (suc n) (r ∷ rest) = ap (λ more. r ∷ more) (take-drop n rest)

  drop-drop : (m n k : ℕ) (rows : List A) → k ≡ m + n → drop m (drop n rows) ≡ drop k rows
  drop-drop m zero k rows h = ap (λ j. drop j rows) (omega (arith, h))
  drop-drop zero (suc n) zero [] h = refl
  drop-drop (suc m) (suc n) zero [] h = refl
  drop-drop zero (suc n) (suc k) [] h = refl
  drop-drop (suc m) (suc n) (suc k) [] h = refl
  drop-drop m (suc n) zero (r ∷ rest) h = elim (impossible h) [ ]
    where
      impossible : 0 ≡ m + suc n → ⊥
      impossible e = omega (arith, e)
  drop-drop m (suc n) (suc k) (r ∷ rest) h = drop-drop m n k rest (omega (arith, h))

  -- A page that is not empty leaves fewer rows.
  length-drop : (n k : ℕ) (rows : List A) → length rows ≤ suc k → length (drop (suc n) rows) ≤ k
  length-drop n k [] h = omega arith
  length-drop n k (r ∷ rest) h = shorter n rest (omega (arith, h))
    where
      shorter : (m : ℕ) (more : List A) → length more ≤ k → length (drop m more) ≤ k
      shorter zero more e = e
      shorter (suc m) [] e = e
      shorter (suc m) (q ∷ more) e = shorter m more (omega (arith, e))

abbrev pub entries : Result (List AuditLog) → List AuditLog
entries (ok logs) = logs
entries (err e) = []

-- A page of `size` entries from a place on, and the next `count` pages from there on, in a row.
unfoldable pub page : AuditLogFilter → ℕ → ℕ → Logs → List AuditLog
page filter size start db = entries (list_audit_logs filter (pos size) (pos start) (calm db)).0

unfoldable pub read_pages : AuditLogFilter → ℕ → ℕ → ℕ → Logs → List AuditLog
read_pages filter size zero start db = []
read_pages filter size (suc count) start db =
    page filter size start db ++ read_pages filter size count (start + size) db

page-eq :
    (filter : AuditLogFilter) (size start : ℕ) (db : Logs)
    → suc size ≤ 1000
    → page filter (suc size) start db
      ≡ take (suc size) (drop start (filter_by (matches filter) db.rows))
unfolding page list_audit_logs statement
page-eq filter size start db h = ground (arith, h)

read_pages-drop :
    (filter : AuditLogFilter) (size count start : ℕ) (db : Logs)
    → suc size ≤ 1000
    → length (drop start (filter_by (matches filter) db.rows)) ≤ count
    → read_pages filter (suc size) count start db ≡ drop start (filter_by (matches filter) db.rows)
unfolding read_pages
read_pages-drop filter size zero start db h e =
    sym (nothing (drop start (filter_by (matches filter) db.rows)) e)
  where
    nothing : (rows : List AuditLog) → length rows ≤ 0 → rows ≡ []
    nothing [] e = refl
    nothing (r ∷ rest) e = elim (impossible e) [ ]
      where
        impossible : suc (length rest) ≤ 0 → ⊥
        impossible f = omega (arith, f)
read_pages-drop filter size (suc count) start db h e =
    let found : List AuditLog = filter_by (matches filter) db.rows in
    let rest : drop (suc size) (drop start found) ≡ drop (start + suc size) found =
      drop-drop (suc size) start (start + suc size) found (omega arith) in
    rw
      (
        page-eq filter size start db h,
        read_pages-drop filter size count (start + suc size) db h (
            subst (λ rows. length rows ≤ count) rest (length-drop size count (drop start found) e)),
        ← rest,
      )
      (take-drop (suc size) (drop start found))

-- Whatever the filter, and for pages of one to a thousand entries: the pages of ListAuditLogs from the
-- first on, as many as CountAuditLogs counts, are in a row exactly the entries of the table that the
-- filter lets through, in their order, and the count is their number, as long as the database refuses
-- no query.
pub read_pages-all :
    (filter : AuditLogFilter) (size count : ℕ) (db : Logs)
    → suc size ≤ 1000
    → (count_audit_logs filter (calm db)).0 ≡ ok count
    → (read_pages filter (suc size) count 0 db ≡ filter_by (matches filter) db.rows)
      × (length (read_pages filter (suc size) count 0 db) ≡ count)
unfolding count_audit_logs statement
read_pages-all filter size count db h e =
    let enough : length (filter_by (matches filter) db.rows) ≡ count = ground (arith, e) in
    let all : read_pages filter (suc size) count 0 db ≡ filter_by (matches filter) db.rows =
      read_pages-drop filter size count 0 db h (omega (arith, enough)) in
    (all, rw all enough)
