-- ===== src/Layers/Feed.antt =====
-- `changes` of src/layers/feature-sync.service.ts: one page of a revision's change feed.
pub mod Pages
use danangmap_backend.Prelude.{
  ℕ, zero, suc, ◌+◌, Bool, true, false, not, ◌&&◌, List, [], ◌∷◌, Option, none, some, ltb, leb, min,
  max, ◌==◌, if◌then◌else◌, length, select_by, is_some,
}
use danangmap_backend.Domain.{app, not_found, sync_cursor_expired, validation_failed}
use danangmap_backend.Database.{Db, Tx, Etag, revision_etag, first_or, guard, pure, ◌>>◌, ◌>>=◌}
use danangmap_backend.Database.Sync.{Change}
use danangmap_backend.Database.Queries.{revision, user}
use danangmap_backend.Layers.Batch.{cursor_decode}

-- The page and its `meta`. Of the actor of a change the id is kept, not the display name.
pub record ChangePage : Type 0 where
  pub rows : List Change
  pub next_cursor : ℕ
  pub has_more : Bool
  pub limit : ℕ
  pub etag : Etag

-- ORDER BY change.server_cursor ASC
unfoldable pub insert_row : Change → List Change → List Change
insert_row c [] = c ∷ []
insert_row c (e ∷ es) =
    let rest = insert_row c es in
    if leb c.server_cursor e.server_cursor then c ∷ e ∷ es else e ∷ rest

unfoldable pub by_cursor : List Change → List Change
unfolding insert_row
by_cursor [] = []
by_cursor (c ∷ cs) = insert_row c (by_cursor cs)

unfoldable pub take : ℕ → List Change → List Change
take zero cs = []
take (suc n) [] = []
take (suc n) (c ∷ cs) = c ∷ take n cs

-- WHERE change.revision_id=$1 AND change.server_cursor > $2, JOIN users
unfoldable pub rows_after : ℕ → ℕ → Db → List Change
rows_after revision_id after db =
    select_by
      (λ c.
        c.revision_id == revision_id && ltb after c.server_cursor && is_some (user c.actor_id db))
      db.changes

-- `page.length ? page.at(-1).server_cursor : after`
unfoldable pub last_cursor : ℕ → List Change → ℕ
last_cursor after [] = after
last_cursor after (c ∷ cs) = last_cursor c.server_cursor cs

abbrev pub bounded : ℕ → ℕ
bounded limit = min (max limit 1) 500

abbrev pub page_of : ℕ → ℕ → Etag → List Change → ChangePage
page_of after limit etag rows =
    let has_more = ltb limit (length rows) in
    let page = if has_more then take limit rows else rows in
    record {
      rows = page;
      next_cursor = last_cursor after page;
      has_more = has_more;
      limit = limit;
      etag = etag;
    }

-- `changes`
unfoldable pub changes : ℕ → Option ℕ → ℕ → Tx ChangePage
unfolding take last_cursor rows_after by_cursor
changes revision_id after_value limit db =
    (do
      after ← cursor_decode after_value
      r ← first_or (revision revision_id) (app not_found)
      guard (not (ltb after r.change_cursor_floor)) (app sync_cursor_expired)
      guard (not (ltb r.cursor_seq after)) (app validation_failed)
      pure (
          page_of after (bounded limit) (revision_etag revision_id r.lock_version)
            (take (suc (bounded limit)) (by_cursor (rows_after revision_id after db)))))
      db
