-- ===== src/Files/Catalog/Search/Pages.antt =====
-- What the pages of `SearchFiles` hold.
use notevault.Prelude.{
  ℕ, zero, suc, ◌*◌, ◌^◌, ◌≤◌, ◌<◌, ◌≡◌, sym, ap, ◌∙◌, inl, inr, Bool, true, false, not, ltb, none,
  some, Option, ◌⊎◌, refl, subst, List, ◌∷◌, ◌-◌, ◌||◌, ◌&&◌, [], ◌++◌, map, arith, Text, is_empty,
  same_text, length, All, Bool-cases,
}
use notevault.Prelude.{trim_space, take, drop}
use notevault.Prelude.Result.{
  Error, Result, ok, err, Result-cases, user_required, count_failed, query_failed,
}
use notevault.Prelude.Int.{ℤ, pos, negsuc, is_positive, pos_part}
use notevault.Files.Catalog.{
  FileRow, FilesDb, FilesDbLaws, Condition, Order, Occurs, satisfies, satisfies_all, size_ge,
  size_le,
}
use notevault.Files.Catalog.Search.{
  SearchFilesRequest, SearchFilesResponse, where_if, where_some, conditions, search_order,
  page_number, page_size, page_offset, found_info, search_files,
}

pub page_number-positive : (page : ℤ) → 1 ≤ page_number page
unfolding page_number
page_number-positive (pos zero) = omega arith
page_number-positive (pos (suc n)) = omega arith
page_number-positive (negsuc n) = omega arith

page_number-asked : (n : ℕ) → 1 ≤ n → page_number (pos n) ≡ n
unfolding page_number
page_number-asked n positive = ground (arith, positive)

page_size-asked : (n : ℕ) → 1 ≤ n → n ≤ 200 → page_size (pos n) ≡ n
unfolding page_size
page_size-asked n positive small = ground (arith, positive, small)

pub page_size-bounds : (size : ℤ) → (1 ≤ page_size size) × (page_size size ≤ 200)
unfolding page_size
page_size-bounds (pos zero) = (omega arith, omega arith)
page_size-bounds (pos (suc n)) = ground arith
page_size-bounds (negsuc n) = (omega arith, omega arith)

pub page_offset-exact :
    (page size : ℕ) → (page - 1) * size < 2 ^ 63 → page_offset page size ≡ (page - 1) * size
unfolding page_offset
page_offset-exact page size small = ground arith

-- A row that the request asks for: of the user, under the prefix, of the category and the content
-- type, with the keyword in its name, description or tags, and between the bounds, each only where the
-- request gives it.
pub record Meets (like : Text → Text → Bool) (user : Text) (req : SearchFilesRequest) (r : FileRow)
    : Type 0 where
  pub own : same_text r.user user ≡ true
  pub prefix : is_empty req.prefix ≡ false → like r.object_key (req.prefix ++ b'%' ∷ []) ≡ true
  pub category : is_empty req.category ≡ false → same_text r.category req.category ≡ true
  pub content_type :
      is_empty req.content_type ≡ false → like r.content_type (req.content_type ++ b'%' ∷ []) ≡ true
  pub min_size : (n : ℕ) → req.min_size ≡ pos n → n ≤ r.size
  pub max_size : (n : ℕ) → req.max_size ≡ pos n → 1 ≤ n → r.size ≤ n
  pub start : (t : ℕ) → req.start ≡ some t → t ≤ r.last_modified
  pub end : (t : ℕ) → req.end ≡ some t → r.last_modified ≤ t
  pub keyword :
      is_empty (trim_space req.keyword) ≡ false
      → (let kw = b'%' ∷ (trim_space req.keyword ++ b'%' ∷ []) in
          (like r.file_name kw || like r.description kw || like r.tags_json kw) ≡ true)

module _ (like : Text → Text → Bool) (user : Text) (req : SearchFilesRequest) (r : FileRow) where
  satisfies-Meets : satisfies_all like r (conditions user req) ≡ true → Meets like user req r
  unfolding conditions
  satisfies-Meets h = record {
    own = ground (arith, h);
    prefix = λ given. ground (arith, h);
    category = λ given. ground (arith, h);
    content_type = λ given. ground (arith, h);
    min_size = λ n given. ground (arith, h);
    max_size = λ n given positive. ground (arith, h);
    start = λ t given. ground (arith, h);
    end = λ t given. ground (arith, h);
    keyword = λ given. ground (arith, h);
  }

  where_if-satisfies :
      (given : Bool) (c : Condition) (cs : List Condition)
      → (given ≡ true → satisfies like r c ≡ true)
      → satisfies_all like r cs ≡ true
      → satisfies_all like r (where_if given c cs) ≡ true
  where_if-satisfies true c cs holds rest = ground (arith, holds refl, rest)
  where_if-satisfies false c cs holds rest = rest

  where_some-satisfies :
      (c : ℕ → Condition) (given : Option ℕ) (cs : List Condition)
      → ((t : ℕ) → given ≡ some t → satisfies like r (c t) ≡ true)
      → satisfies_all like r cs ≡ true
      → satisfies_all like r (where_some c given cs) ≡ true
  where_some-satisfies c none cs holds rest = rest
  where_some-satisfies c (some t) cs holds rest = ground (arith, holds t refl, rest)

  positive-pos : (n : ℤ) → is_positive n ≡ true → (n ≡ pos (pos_part n)) × (1 ≤ pos_part n)
  positive-pos (pos n) positive = (refl, ground arith)
  positive-pos (negsuc n) positive = absurd (cc positive)

  and-true : (a b : Bool) → a ≡ true → b ≡ true → (a && b) ≡ true
  and-true a b h k = ground (arith, h, k)

  not-true : (a : Bool) → not a ≡ true → a ≡ false
  not-true a h = ground (arith, h)

  Meets-satisfies : Meets like user req r → satisfies_all like r (conditions user req) ≡ true
  unfolding conditions
  Meets-satisfies m = and-true _ _ m.own (
      where_if-satisfies _ _ _ (λ g. m.prefix (not-true _ g))
        (where_if-satisfies _ _ _ (λ g. m.category (not-true _ g))
          (where_if-satisfies _ _ _ (λ g. m.content_type (not-true _ g))
            (where_if-satisfies _ _ _ min_holds (
              where_if-satisfies _ _ _ max_holds (
                where_some-satisfies _ _ _ (λ t g. let h = m.start t g in ground (arith, h))
                  (where_some-satisfies _ _ _ (λ t g. let h = m.end t g in ground (arith, h))
                    (where_if-satisfies _ _ _ (λ g. m.keyword (not-true _ g)) refl))))))))
    where
      min_holds :
          is_positive req.min_size ≡ true
          → satisfies like r (size_ge (pos_part req.min_size)) ≡ true
      min_holds g =
          let h = m.min_size (pos_part req.min_size) (positive-pos req.min_size g).0 in
          ground (arith, h)

      max_holds :
          is_positive req.max_size ≡ true
          → satisfies like r (size_le (pos_part req.max_size)) ≡ true
      max_holds g =
          let (same, positive) = positive-pos req.max_size g in
          let h = m.max_size (pos_part req.max_size) same positive in ground (arith, h)

All-Occurs {κ} :
    (P : FileRow → Type κ) (rows : List FileRow)
    → ((r : FileRow) → Occurs r rows → P r)
    → All P rows
All-Occurs P [] each = tt
All-Occurs P (r ∷ rows) each =
    (each r (inl refl), All-Occurs P rows (λ q there. each q (inr there)))

Occurs-All {κ} :
    (P : FileRow → Type κ) (rows : List FileRow) (r : FileRow) → All P rows → Occurs r rows → P r
Occurs-All P [] r all there = absurd there
Occurs-All P (q ∷ rows) r all there = elim there [
  | inl same ↦ subst P same all.0
  | inr later ↦ Occurs-All P rows r all.1 later
]

module _ (format : ℕ → Text) (like : Text → Text → Bool) (db : FilesDb) (law : FilesDbLaws like db)
    (user : Text) (req : SearchFilesRequest) (rows : db.Rows) where
  -- An answer is a page, of at most 200 entries, of an arrangement of rows which the request asks for;
  -- every row of the table which the request asks for stands in it, and the total is its length.
  pub record IsPage (reply : SearchFilesResponse) : Type 0 where
    pub arranged : List FileRow
    pub sound : All (Meets like user req) arranged
    pub complete :
        (owner key : Text) (r : FileRow)
        → db.find owner key rows ≡ some r
        → Meets like user req r
        → Occurs r arranged
    pub total : reply.total ≡ length arranged
    pub page : 1 ≤ reply.page
    pub size : (1 ≤ reply.size) × (reply.size ≤ 200)
    pub asked_page : (n : ℕ) → req.page ≡ pos n → 1 ≤ n → reply.page ≡ n
    pub asked_size : (n : ℕ) → req.page_size ≡ pos n → 1 ≤ n → n ≤ 200 → reply.size ≡ n
    pub files :
        (2 ^ 63 ≤ (reply.page - 1) * reply.size)
        ⊎ (reply.files
            ≡ map
                (found_info format)
                (take reply.size (drop ((reply.page - 1) * reply.size) arranged)))

  -- A search fails, or answers with a page.
  abbrev pub Finds : Result SearchFilesResponse → Type 0
  Finds (err e) =
      ((e ≡ user_required) × (is_empty user ≡ true))
      ⊎ ((x : Error) × (cs : List Condition) × (((e ≡ count_failed x) × (db.count cs rows ≡ err x))
            ⊎ ((e ≡ query_failed x)
                × ((order : Order) × (offset : ℕ) × (limit : ℕ) × (db.page cs order offset limit
                        rows
                      ≡ err x)))))
  Finds (ok reply) = IsPage reply

  answer-IsPage :
      (total : ℕ) (found : List FileRow)
      → db.count (conditions user req) rows ≡ ok total
      → db.page
          (conditions user req)
          (search_order req)
          (page_offset (page_number req.page) (page_size req.page_size))
          (page_size req.page_size)
          rows
        ≡ ok found
      → IsPage (record {
        total = total;
        page = page_number req.page;
        size = page_size req.page_size;
        files = map (found_info format) found;
      })
  answer-IsPage total found counted queried =
      let page = page_number req.page in
      let size = page_size req.page_size in
      let cs = conditions user req in
      let (arranged, arrangement, slice) =
        law.page_ok cs (search_order req) (page_offset page size) size rows found queried in
      record {
        arranged = arranged;
        sound = All-Occurs (Meets like user req) arranged (λ r there.
            satisfies-Meets like user req r (
              Occurs-All (λ q. satisfies_all like q cs ≡ true) (db.select cs rows) r
                (law.select_sound cs rows) (arrangement.only_those r there)));
        complete = λ owner key r there meets.
            arrangement.all_of_them r (
              law.select_complete cs rows owner key r there
                (Meets-satisfies like user req r meets));
        total = law.count_ok cs rows total counted ∙ sym arrangement.same_length;
        page = page_number-positive req.page;
        size = page_size-bounds req.page_size;
        asked_page = λ n asked positive. ap page_number asked ∙ page_number-asked n positive;
        asked_size =
            λ n asked positive small. ap page_size asked ∙ page_size-asked n positive small;
        files = elim (Bool-cases (ltb ((page - 1) * size) (2 ^ 63))) [
          | inr over ↦ inl (ground (arith, over))
          | inl small ↦ inr (
              ap (map (found_info format)) slice
              ∙ ap (λ n. map (found_info format) (take size (drop n arranged)))
                  (page_offset-exact page size (ground (arith, small))))
        ];
      }

  -- `SearchFiles` fails without a user, or where counting or querying fails. Else the answer is a page
  -- of some order of the rows that the request asks for: all of them are the user's and meet each bound
  -- that the request gives, every row of the table that does so is among them, and the total is their
  -- number. The page is at least 1 and its size between 1 and 200, each as asked where the request asks
  -- for such a one, and its entries are those behind the earlier pages, while their number is below
  -- 2^63.
  pub search_files-Finds : Finds (search_files format db user (some req) rows)
  unfolding search_files
  search_files-Finds =
      let cs = conditions user req in
      let offset = page_offset (page_number req.page) (page_size req.page_size) in
      elim (Bool-cases (is_empty user)) [
        | inl nobody ↦ rw nobody (inl (refl, nobody))
        | inr somebody ↦ rw somebody (elim (Result-cases (db.count cs rows)) [
          | inr (e, failed) ↦ rw failed (inr (e, cs, inl (refl, failed)))
          | inl (total, counted) ↦
              rw counted
                (elim (Result-cases
                  (db.page cs (search_order req) offset (page_size req.page_size) rows)) [
                    | inr (e, failed) ↦ rw failed (inr (e, cs, inr (refl, (_, _, _, failed))))
                    | inl (found, queried) ↦ rw queried (answer-IsPage total found counted queried)
                  ])
        ])
      ]
