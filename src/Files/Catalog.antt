-- ===== src/Files/Catalog.antt =====
-- The table of files: pkg/internal/model/file.go, the database behind it, and the parts of
-- pkg/internal/service/files.go that stand on it.
mod Tests
pub mod Sync
pub mod Search
pub mod Month
use notevault.Prelude.{
  ℕ, ◌≡◌, ◌⊎◌, Bool, true, ◌&&◌, ◌||◌, Option, none, some, List, [], ◌∷◌, Text, same_text, length,
  All, leb, if◌then◌else◌,
}
use notevault.Prelude.{take, drop}
use notevault.Prelude.Result.{Error, Result, ok, err}

-- `model.Files`, without the numbers that the database gives its rows.
pub record FileRow : Type 0 where
  pub user : Text
  pub object_key : Text
  pub file_name : Text
  pub size : ℕ
  pub etag : Text
  pub content_type : Text
  pub category : Text
  pub description : Text
  pub tags_json : Text
  pub bucket : Text
  pub version_id : Text
  pub storage_class : Text
  pub last_modified : ℕ
  pub updated_at : ℕ

-- The conditions that `SearchFiles` adds with `Where`; sizes and instants are compared as numbers.
pub data Condition : Type 0 where
  user_is : Text → Condition
  object_key_like : Text → Condition
  category_is : Text → Condition
  content_type_like : Text → Condition
  size_ge size_le : ℕ → Condition
  last_modified_ge last_modified_le : ℕ → Condition
  keyword_like : Text → Condition

-- The order of a query: by size instead of the last modification, and ascending.
pub record Order : Type 0 where
  pub by_size : Bool
  pub ascending : Bool

-- What `ON CONFLICT DO UPDATE` makes of the new row and the row that is there.
abbrev pub Merge : Type 0
Merge = FileRow → FileRow → FileRow

-- The database: `select` is the rows that satisfy some conditions, in some order, and `find` the row of
-- a user and a key, which are unique together.
pub record FilesDb : Type 1 where
  pub Rows : Type 0
  pub find : Text → Text → Rows → Option FileRow
  pub select : List Condition → Rows → List FileRow
  -- `Count`
  pub count : List Condition → Rows → Result ℕ
  -- `Order`, `Offset`, `Limit` and `Find`
  pub page : List Condition → Order → ℕ → ℕ → Rows → Result (List FileRow)
  -- `Clauses(OnConflict).Create`
  pub upsert : Merge → FileRow → Rows → Result (Unit {0}) × Rows

-- A merge leaves the row at its user and key.
abbrev pub KeepsPlace : Merge → Type 0
KeepsPlace merge =
    (new old : FileRow)
    → ((merge new old).user ≡ old.user) × ((merge new old).object_key ≡ old.object_key)

abbrev pub merged : Merge → FileRow → Option FileRow → FileRow
merged merge new none = new
merged merge new (some old) = merge new old

abbrev pub same_place : Text → Text → FileRow → Bool
same_place user key row = same_text row.user user && same_text row.object_key key

-- The row stands in the list.
abbrev pub Occurs : FileRow → List FileRow → Type 0
Occurs r [] = ⊥
Occurs r (q ∷ rows) = (q ≡ r) ⊎ Occurs r rows

-- The same rows, perhaps in another order.
pub record IsArrangement (rows others : List FileRow) : Type 0 where
  pub same_length : length rows ≡ length others
  pub only_those : (r : FileRow) → Occurs r rows → Occurs r others
  pub all_of_them : (r : FileRow) → Occurs r others → Occurs r rows

-- The meaning of `LIKE` is the database's: `like text pattern`.
module _ (like : Text → Text → Bool) where
  abbrev pub satisfies : FileRow → Condition → Bool
  satisfies r (user_is u) = same_text r.user u
  satisfies r (object_key_like p) = like r.object_key p
  satisfies r (category_is c) = same_text r.category c
  satisfies r (content_type_like p) = like r.content_type p
  satisfies r (size_ge n) = leb n r.size
  satisfies r (size_le n) = leb r.size n
  satisfies r (last_modified_ge t) = leb t r.last_modified
  satisfies r (last_modified_le t) = leb r.last_modified t
  satisfies r (keyword_like p) = like r.file_name p || like r.description p || like r.tags_json p

  abbrev pub satisfies_all : FileRow → List Condition → Bool
  satisfies_all r [] = true
  satisfies_all r (c ∷ cs) = satisfies r c && satisfies_all r cs

  pub record FilesDbLaws (db : FilesDb) : Type 0 where
    pub upsert_ok :
        (merge : Merge) (new : FileRow) (rows : db.Rows)
        → KeepsPlace merge
        → (db.upsert merge new rows).0 ≡ ok tt
        → (user key : Text)
        → db.find user key (db.upsert merge new rows).1 ≡ (
            if same_place user key new
            then some (merged merge new (db.find user key rows))
            else db.find user key rows)
    -- A statement that fails changes nothing.
    pub upsert_err :
        (merge : Merge) (new : FileRow) (rows : db.Rows) (e : Error)
        → (db.upsert merge new rows).0 ≡ err e
        → (user key : Text) → db.find user key (db.upsert merge new rows).1 ≡ db.find user key rows
    pub select_sound :
        (conditions : List Condition) (rows : db.Rows)
        → All (λ r. satisfies_all r conditions ≡ true) (db.select conditions rows)
    pub select_complete :
        (conditions : List Condition) (rows : db.Rows) (user key : Text) (r : FileRow)
        → db.find user key rows ≡ some r
        → satisfies_all r conditions ≡ true
        → Occurs r (db.select conditions rows)
    pub count_ok :
        (conditions : List Condition) (rows : db.Rows) (n : ℕ)
        → db.count conditions rows ≡ ok n
        → n ≡ length (db.select conditions rows)
    -- A page is a slice of these rows in an order that another query need not share, since the columns
    -- of an order are not unique.
    pub page_ok :
        (conditions : List Condition) (order : Order) (offset limit : ℕ) (rows : db.Rows)
        (found : List FileRow)
        → db.page conditions order offset limit rows ≡ ok found
        → (arranged : List FileRow) × IsArrangement arranged (db.select conditions rows)
          × (found ≡ take limit (drop offset arranged))
