-- ===== src/Layers/Feed/Pages.antt =====
-- A page of a feed without gaps.
use danangmap_backend.Prelude.{
  ℕ, zero, suc, ◌+◌, ◌≤◌, ◌≡◌, refl, sym, subst, ap, ◌∙◌, true, ◌&&◌, List, [], ◌∷◌, some, ltb, leb,
  min, max, ◌==◌, if◌then◌else◌, length, select_by, is_some, All, arith, Bool-cases, inl, inr,
}
use danangmap_backend.Database.{Db, Revision, ok, revision_etag}
use danangmap_backend.Database.Sync.{Change}
use danangmap_backend.Database.Queries.{revision, user}
use danangmap_backend.Layers.Feed.{
  ChangePage, insert_row, by_cursor, take, rows_after, last_cursor, bounded, page_of, changes,
}
use danangmap_backend.Layers.Runs.{Runs, Runs-eq, Runs-le, Runs-drop, is_kept, feed}

rows_after-feed :
    (id after : ℕ) (db : Db) (cs : List Change)
    → All (λ c. is_some (user c.actor_id db) ≡ true) cs
    → select_by
        (λ c. c.revision_id == id && ltb after c.server_cursor && is_some (user c.actor_id db))
        cs
      ≡ select_by (is_kept id after) (feed id cs)
unfolding select_by
rows_after-feed id after db [] h = refl
rows_after-feed id after db (c ∷ cs) h = ground (arith, h.0, rows_after-feed id after db cs h.1)

insert_row-first :
    (id a b : ℕ) (c : Change) (cs : List Change)
    → c.server_cursor ≤ suc a
    → Runs id a cs b
    → insert_row c cs ≡ c ∷ cs
unfolding insert_row
insert_row-first id a b c [] h k = refl
insert_row-first id a b c (e ∷ es) h k = ground (arith, k.1)

by_cursor-Runs : (id a b : ℕ) (cs : List Change) → Runs id a cs b → by_cursor cs ≡ cs
unfolding by_cursor insert_row
by_cursor-Runs id a b [] h = refl
by_cursor-Runs id a b (c ∷ cs) h =
    ap (insert_row c) (by_cursor-Runs id (suc a) b cs h.2)
    ∙ insert_row-first id (suc a) b c cs (ground (arith, h.1)) h.2

Runs-take :
    (id a b n : ℕ) (cs : List Change) → Runs id a cs b → Runs id a (take n cs) (min (a + n) b)
unfolding take
Runs-take id a b zero cs h = ground (arith, Runs-le id a b cs h)
Runs-take id a b (suc n) [] h = ground arith
Runs-take id a b (suc n) (c ∷ cs) h = (
  h.0,
  h.1,
  subst (λ m. Runs id (suc a) (take n cs) m) (omega arith) (Runs-take id (suc a) b n cs h.2),
)

Runs-length : (id a b : ℕ) (cs : List Change) → Runs id a cs b → a + length cs ≡ b
Runs-length id a b [] h = ground arith
Runs-length id a b (c ∷ cs) h = ground (arith, Runs-length id (suc a) b cs h.2)

Runs-last : (id a b : ℕ) (cs : List Change) → Runs id a cs b → last_cursor a cs ≡ b
unfolding last_cursor
Runs-last id a b [] h = h
Runs-last id a b (c ∷ cs) h = ap (λ n. last_cursor n cs) h.1 ∙ Runs-last id (suc a) b cs h.2

take-take : (n : ℕ) (cs : List Change) → take n (take (suc n) cs) ≡ take n cs
unfolding take
take-take zero cs = refl
take-take (suc n) [] = refl
take-take (suc n) (c ∷ cs) = ap (λ ds. c ∷ ds) (take-take n cs)

take-all : (n : ℕ) (cs : List Change) → length (take (suc n) cs) ≤ n → take (suc n) cs ≡ take n cs
unfolding take
take-all zero [] h = refl
take-all zero (c ∷ cs) h = absurd (omega arith)
take-all (suc n) [] h = refl
take-all (suc n) (c ∷ cs) h = ap (λ ds. c ∷ ds) (take-all n cs (omega arith))

page-rows :
    (n : ℕ) (cs : List Change)
    → (if ltb n (length (take (suc n) cs)) then take n (take (suc n) cs) else take (suc n) cs)
      ≡ take n cs
page-rows n cs = elim (Bool-cases (ltb n (length (take (suc n) cs)))) [
  | inl e ↦ ground (arith, take-take n cs)
  | inr e ↦ ground (arith, take-all n cs)
]

kept-eq :
    (id after : ℕ) (db : Db) (floor cursor : ℕ)
    → Runs id floor (feed id db.changes) cursor
    → All (λ c. is_some (user c.actor_id db) ≡ true) db.changes
    → floor ≤ after
    → after ≤ cursor
    → by_cursor (rows_after id after db) ≡ select_by (is_kept id after) (feed id db.changes)
unfolding rows_after
kept-eq id after db floor cursor h k lo hi =
    let kept = select_by (is_kept id after) (feed id db.changes) in
    ap by_cursor (rows_after-feed id after db db.changes k)
    ∙ by_cursor-Runs id after cursor kept (
        Runs-eq id (max floor after) after cursor kept kept (omega arith) refl
          (Runs-drop id floor cursor after (feed id db.changes) h hi))

-- No row of a run is at or below the cursor that it starts from.
Runs-none :
    (id a b m : ℕ) (cs : List Change)
    → m ≤ a
    → Runs id a cs b
    → select_by (λ c. leb c.server_cursor m) cs ≡ []
unfolding select_by
Runs-none id a b m [] le h = refl
Runs-none id a b m (c ∷ cs) le h =
    ground (arith, h.1, Runs-none id (suc a) b m cs (omega arith) h.2)

-- As many rows from the front of a run are those up to a cursor.
take-select :
    (id a b m n : ℕ) (cs : List Change)
    → m ≡ min (a + n) b
    → Runs id a cs b
    → take n cs ≡ select_by (λ c. leb c.server_cursor m) cs
unfolding take select_by
take-select id a b m zero cs e h = sym (Runs-none id a b m cs (omega arith) h)
take-select id a b m (suc n) [] e h = refl
take-select id a b m (suc n) (c ∷ cs) e h =
    let le = Runs-le id (suc a) b cs h.2 in
    let first : leb c.server_cursor m ≡ true = ground (arith, h.1, le, e) in
    ground (arith, first, take-select id (suc a) b m n cs (omega arith) h.2)

kept-range :
    (id after m : ℕ) (cs : List Change)
    → select_by (λ c. leb c.server_cursor m) (select_by (is_kept id after) (feed id cs))
      ≡ select_by
          (λ c. c.revision_id == id && ltb after c.server_cursor && leb c.server_cursor m)
          cs
unfolding select_by
kept-range id after m [] = refl
kept-range id after m (c ∷ cs) = ground (arith, kept-range id after m cs)

-- The rows that a page is taken from.
selected :
    (id floor after cursor : ℕ) (db : Db)
    → Runs id floor (feed id db.changes) cursor
    → All (λ c. is_some (user c.actor_id db) ≡ true) db.changes
    → floor ≤ after
    → after ≤ cursor
    → Runs id after (by_cursor (rows_after id after db)) cursor
selected id floor after cursor db h k lo hi =
    let kept = select_by (is_kept id after) (feed id db.changes) in
    Runs-eq id (max floor after) after cursor kept _ (omega arith)
      (sym (kept-eq id after db floor cursor h k lo hi))
      (Runs-drop id floor cursor after (feed id db.changes) h hi)

-- What a page of the feed after a cursor says.
pub record PageAfter (id after limit : ℕ) (r : Revision) (db : Db) (page : ChangePage)
    : Type 0 where
  pub exact :
      page.rows
      ≡ select_by
          (λ c.
            c.revision_id == id
            && ltb after c.server_cursor
            && leb c.server_cursor page.next_cursor)
          db.changes
  pub consecutive : Runs id after page.rows page.next_cursor
  pub reaches : page.next_cursor ≡ min (after + bounded limit) r.cursor_seq
  pub ends : page.has_more ≡ ltb page.next_cursor r.cursor_seq

-- Where the feed of a revision has no gap and every change has an actor, a client that asks for the
-- changes after a cursor between the floor and the current one gets a page that misses none: its rows
-- are the changes of the revision, as they are stored, above that cursor and up to `nextCursor`, one for
-- each cursor and in their order. `nextCursor` is the limit further or the end, and `hasMore` says just
-- whether that is short of the revision's cursor.
pub changes-PageAfter :
    (id after limit : ℕ) (r : Revision) (db : Db)
    → revision id db ≡ some r
    → Runs id r.change_cursor_floor (feed id db.changes) r.cursor_seq
    → All (λ c. is_some (user c.actor_id db) ≡ true) db.changes
    → r.change_cursor_floor ≤ after
    → after ≤ r.cursor_seq
    → (page : ChangePage) × (changes id (some after) limit db ≡ ok (page, db))
      × PageAfter id after limit r db page
unfolding changes
changes-PageAfter id after limit r db found h k lo hi =
    let n = bounded limit in
    let cs = by_cursor (rows_after id after db) in
    let run = selected id r.change_cursor_floor after r.cursor_seq db h k lo hi in
    let page = Runs-take id after r.cursor_seq n cs run in
    let long = Runs-take id after r.cursor_seq (suc n) cs run in
    let size = Runs-length id after _ (take (suc n) cs) long in
    let end = Runs-last id after _ (take n cs) page in
    let rows = page-rows n cs in
    (
      page_of after n (revision_etag id r.lock_version) (take (suc n) cs),
      ground arith,
      record {
        exact =
            rows
            ∙ take-select id after r.cursor_seq (last_cursor after (take n cs)) n cs end run
            ∙ ap (select_by (λ (c : Change). leb c.server_cursor (last_cursor after (take n cs))))
                (kept-eq id after db r.change_cursor_floor r.cursor_seq h k lo hi)
            ∙ kept-range id after (last_cursor after (take n cs)) db.changes
            ∙ ap
                (λ (m : ℕ).
                  select_by
                    (λ c. c.revision_id == id && ltb after c.server_cursor && leb c.server_cursor m)
                    db.changes)
                (sym (ap (last_cursor after) rows));
        consecutive =
            subst (λ ds. Runs id after ds (last_cursor after ds)) (sym rows)
              (subst (λ m. Runs id after (take n cs) m) (sym end) page);
        reaches = ap (last_cursor after) rows ∙ end;
        ends = ground (arith, size, rows, end);
      },
    )
