-- ===== src/RuntimeHost/Catalog/Laws.antt =====
-- What ListLibraryMedia sends, and what it returns.
use mathlib.Core.List.{append-nil, append_assoc}
use bloem_plugin_sdk.Base.{
  Option, none, some, List, [], ◌∷◌, ◌++◌, map, Result, ok, err, ◌≡◌, refl, ◌↔◌, ap, ◌∙◌, sym,
  subst,
}
use bloem_plugin_sdk.Base.Int.{pos, int32}
use bloem_plugin_sdk.RuntimeHost.Catalog.{
  ListLibraryMediaRequest, ListLibraryMediaRequestMessage, CatalogMediaItem,
  CatalogMediaItemMessage, media_item, LibraryMediaAnswer, ListLibraryMediaResponse, media_message,
  add_items, page_of, read_answer, list_library_media,
}

-- What is sent: the years and the page size as int32 values, and the other fields as they are.
pub record IsMediaMessage (r : ListLibraryMediaRequest) (m : ListLibraryMediaRequestMessage)
    : Type 0 where
  pub library_ids : m.library_ids ≡ r.library_ids
  pub media_types : m.media_types ≡ r.media_types
  pub query : m.query ≡ r.query
  pub genre : m.genre ≡ r.genre
  pub year_min : m.year_min ≡ int32 r.year_min
  pub year_max : m.year_max ≡ int32 r.year_max
  pub sort : m.sort ≡ r.sort
  pub descending : m.descending ≡ r.descending
  pub page_size : m.page_size ≡ int32 r.page_size
  pub page_token : m.page_token ≡ r.page_token

-- an item of the page, and what the answer has for it: an item with the same fields, or nil for the
-- item with every field empty
pub record IsCopy (m : CatalogMediaItemMessage) (item : CatalogMediaItem) : Type 0 where
  pub media_id : item.media_id ≡ m.media_id
  pub library_id : item.library_id ≡ m.library_id
  pub media_type : item.media_type ≡ m.media_type
  pub title : item.title ≡ m.title
  pub year : item.year ≡ m.year
  pub overview : item.overview ≡ m.overview
  pub poster_url : item.poster_url ≡ m.poster_url
  pub backdrop_url : item.backdrop_url ≡ m.backdrop_url
  pub genres : item.genres ≡ m.genres
  pub runtime_minutes : item.runtime_minutes ≡ m.runtime_minutes
  pub rating : item.rating ≡ m.rating
  pub content_rating : item.content_rating ≡ m.content_rating
  pub added_at : item.added_at ≡ m.added_at
  pub external_provider : item.external_provider ≡ m.external_provider
  pub external_id : item.external_id ≡ m.external_id

pub record IsEmptyItem (item : CatalogMediaItem) : Type 0 where
  pub media_id : item.media_id ≡ ""
  pub library_id : item.library_id ≡ ""
  pub media_type : item.media_type ≡ ""
  pub title : item.title ≡ ""
  pub year : item.year ≡ pos 0
  pub overview : item.overview ≡ ""
  pub poster_url : item.poster_url ≡ ""
  pub backdrop_url : item.backdrop_url ≡ ""
  pub genres : item.genres ≡ []
  pub runtime_minutes : item.runtime_minutes ≡ pos 0
  pub rating : item.rating ≡ 0
  pub content_rating : item.content_rating ≡ ""
  pub added_at : item.added_at ≡ ""
  pub external_provider : item.external_provider ≡ ""
  pub external_id : item.external_id ≡ ""

abbrev pub IsItem : Option CatalogMediaItemMessage → CatalogMediaItem → Type 0
IsItem none item = IsEmptyItem item
IsItem (some m) item = IsCopy m item

abbrev pub AreItems : List (Option CatalogMediaItemMessage) → List CatalogMediaItem → Type 0
AreItems [] [] = Unit
AreItems (it ∷ its) (item ∷ items) = IsItem it item × AreItems its items
AreItems _ _ = ⊥

-- A page is what the host answers, its items one by one and in their order.
pub record IsPage (a : LibraryMediaAnswer) (page : ListLibraryMediaResponse) : Type 0 where
  pub items : AreItems a.items page.items
  pub next_page_token : page.next_page_token ≡ a.next_page_token
  pub total_count : page.total_count ≡ a.total_count

media_message-IsMediaMessage : (r : ListLibraryMediaRequest) → IsMediaMessage r (media_message r)
unfolding media_message
media_message-IsMediaMessage r = record {
  library_ids = refl;
  media_types = refl;
  query = refl;
  genre = refl;
  year_min = refl;
  year_max = refl;
  sort = refl;
  descending = refl;
  page_size = refl;
  page_token = refl;
}

media_message-of_fields :
    (r : ListLibraryMediaRequest) (m : ListLibraryMediaRequestMessage)
    → IsMediaMessage r m
    → m ≡ media_message r
unfolding media_message
media_message-of_fields r m h = λ i. record {
  library_ids = h.library_ids i;
  media_types = h.media_types i;
  query = h.query i;
  genre = h.genre i;
  year_min = h.year_min i;
  year_max = h.year_max i;
  sort = h.sort i;
  descending = h.descending i;
  page_size = h.page_size i;
  page_token = h.page_token i;
}

media_item-IsItem : (it : Option CatalogMediaItemMessage) → IsItem it (media_item it)
unfolding media_item
media_item-IsItem none = record {
  media_id = refl;
  library_id = refl;
  media_type = refl;
  title = refl;
  year = refl;
  overview = refl;
  poster_url = refl;
  backdrop_url = refl;
  genres = refl;
  runtime_minutes = refl;
  rating = refl;
  content_rating = refl;
  added_at = refl;
  external_provider = refl;
  external_id = refl;
}
media_item-IsItem (some m) = record {
  media_id = refl;
  library_id = refl;
  media_type = refl;
  title = refl;
  year = refl;
  overview = refl;
  poster_url = refl;
  backdrop_url = refl;
  genres = refl;
  runtime_minutes = refl;
  rating = refl;
  content_rating = refl;
  added_at = refl;
  external_provider = refl;
  external_id = refl;
}

media_item-of_fields :
    (it : Option CatalogMediaItemMessage) (item : CatalogMediaItem)
    → IsItem it item
    → media_item it ≡ item
unfolding media_item
media_item-of_fields none item h = λ i. record {
  media_id = sym h.media_id i;
  library_id = sym h.library_id i;
  media_type = sym h.media_type i;
  title = sym h.title i;
  year = sym h.year i;
  overview = sym h.overview i;
  poster_url = sym h.poster_url i;
  backdrop_url = sym h.backdrop_url i;
  genres = sym h.genres i;
  runtime_minutes = sym h.runtime_minutes i;
  rating = sym h.rating i;
  content_rating = sym h.content_rating i;
  added_at = sym h.added_at i;
  external_provider = sym h.external_provider i;
  external_id = sym h.external_id i;
}
media_item-of_fields (some m) item h = λ i. record {
  media_id = sym h.media_id i;
  library_id = sym h.library_id i;
  media_type = sym h.media_type i;
  title = sym h.title i;
  year = sym h.year i;
  overview = sym h.overview i;
  poster_url = sym h.poster_url i;
  backdrop_url = sym h.backdrop_url i;
  genres = sym h.genres i;
  runtime_minutes = sym h.runtime_minutes i;
  rating = sym h.rating i;
  content_rating = sym h.content_rating i;
  added_at = sym h.added_at i;
  external_provider = sym h.external_provider i;
  external_id = sym h.external_id i;
}

map-AreItems : (its : List (Option CatalogMediaItemMessage)) → AreItems its (map media_item its)
map-AreItems [] = tt
map-AreItems (it ∷ its) = (media_item-IsItem it, map-AreItems its)

AreItems-of_map :
    (its : List (Option CatalogMediaItemMessage)) (items : List CatalogMediaItem)
    → AreItems its items
    → map media_item its ≡ items
AreItems-of_map [] [] h = refl
AreItems-of_map (it ∷ its) (item ∷ items) (h, hs) =
    let e = media_item-of_fields it item h in
    let es = AreItems-of_map its items hs in λ i. e i ∷ es i
AreItems-of_map [] (item ∷ items) h = absurd h
AreItems-of_map (it ∷ its) [] h = absurd h

add_items_lem :
    (out : List CatalogMediaItem) (its : List (Option CatalogMediaItemMessage))
    → add_items out its ≡ out ++ map media_item its
unfolding add_items
add_items_lem out [] = sym (append-nil out)
add_items_lem out (it ∷ its) =
    add_items_lem (out ++ (media_item it ∷ [])) its
    ∙ append_assoc out (media_item it ∷ []) (map media_item its)

page_of-IsPage : (a : LibraryMediaAnswer) → IsPage a (page_of a)
page_of-IsPage a = record {
  items = subst (AreItems a.items) (sym (add_items_lem [] a.items)) (map-AreItems a.items);
  next_page_token = refl;
  total_count = refl;
}

page_of_iff :
    (a : LibraryMediaAnswer) (page : ListLibraryMediaResponse) → (page_of a ≡ page) ↔ IsPage a page
page_of_iff a page = (
  λ h. subst (IsPage a) h (page_of-IsPage a),
  λ h.
      let same = add_items_lem [] a.items ∙ AreItems-of_map a.items page.items h.items in
      λ i. record {
        items = same i;
        next_page_token = sym h.next_page_token i;
        total_count = sym h.total_count i;
      },
)

module _ {S E : Type 0}
    (call : ListLibraryMediaRequestMessage → S → S × Result E LibraryMediaAnswer) where
  read_answer-IsPage_iff :
      (answer : S × Result E LibraryMediaAnswer) (s' : S) (page : ListLibraryMediaResponse)
      → (read_answer page_of answer ≡ (s', ok page))
        ↔ ((a : LibraryMediaAnswer) × (answer ≡ (s', ok a)) × IsPage a page)
  read_answer-IsPage_iff (t, err e) s' page =
      (λ h. absurd (cc (ap (λ r. r.1) h)), λ (a, e', k). absurd (cc (ap (λ r. r.1) e')))
  read_answer-IsPage_iff (t, ok a) s' page = (
    λ h. (a, (λ i. ((h i).0, ok a)), (page_of_iff a page).0 (cc (ap (λ r. r.1) h))),
    λ (a', e, k).
        let same : a ≡ a' = cc (ap (λ r. r.1) e) in
        let read : page_of a ≡ page = ap page_of same ∙ (page_of_iff a' page).1 k in
        λ i. ((e i).0, ok (read i)),
  )

  -- ListLibraryMedia returns a page exactly if the host answers a message with the fields of the
  -- request, of which the years and the page size are wrapped to int32 values, and the page has the
  -- answer's token and total, and its items in that order with the fields of the answer's, where a
  -- nil item counts as one with empty fields.
  pub list_library_media-eq-ok_iff :
      (r : ListLibraryMediaRequest) (s s' : S) (page : ListLibraryMediaResponse)
      → (list_library_media call r s ≡ (s', ok page)) ↔ (
          (m : ListLibraryMediaRequestMessage) × IsMediaMessage r m
          × ((a : LibraryMediaAnswer) × (call m s ≡ (s', ok a)) × IsPage a page))
  unfolding list_library_media
  list_library_media-eq-ok_iff r s s' page =
      let (to, from) = read_answer-IsPage_iff (call (media_message r) s) s' page in
      (
        λ h. (media_message r, media_message-IsMediaMessage r, to h),
        λ (m, sent, (a, e, k)).
            from (a, ap (λ m. call m s) (sym (media_message-of_fields r m sent)) ∙ e, k),
      )
