-- ===== src/RuntimeHost/Catalog.antt =====
-- ListLibraryMedia of client.go. The host's call is a parameter. The numbers of an answer are int32 values, which an `int` holds; a rating is its bits.
pub mod Laws
pub mod Stats
use bloem_plugin_sdk.Base.{
  ℕ, String, Bool, Option, none, some, List, [], ◌∷◌, ◌++◌, map, Result, ok, err, ◌>>=◌, ◌≡◌, ◌↔◌,
  ap, ◌∙◌, sym,
}
use bloem_plugin_sdk.Base.Int.{ℤ, pos, int32}

pub record ListLibraryMediaRequest : Type 0 where
  pub library_ids : List String
  pub media_types : List String
  pub query : String
  pub genre : String
  pub year_min : ℤ
  pub year_max : ℤ
  pub sort : String
  pub descending : Bool
  pub page_size : ℤ
  pub page_token : String

-- the message that is sent for it, whose three numbers are int32 values
pub record ListLibraryMediaRequestMessage : Type 0 where
  pub library_ids : List String
  pub media_types : List String
  pub query : String
  pub genre : String
  pub year_min : ℤ
  pub year_max : ℤ
  pub sort : String
  pub descending : Bool
  pub page_size : ℤ
  pub page_token : String

-- an item of the catalogue, as the client returns it
pub record CatalogMediaItem : Type 0 where
  pub media_id : String
  pub library_id : String
  pub media_type : String
  pub title : String
  pub year : ℤ
  pub overview : String
  pub poster_url : String
  pub backdrop_url : String
  pub genres : List String
  pub runtime_minutes : ℤ
  pub rating : ℕ
  pub content_rating : String
  pub added_at : String
  pub external_provider : String
  pub external_id : String

-- an item of the catalogue, as the message has it; its two numbers are int32 values
pub record CatalogMediaItemMessage : Type 0 where
  pub media_id : String
  pub library_id : String
  pub media_type : String
  pub title : String
  pub year : ℤ
  pub overview : String
  pub poster_url : String
  pub backdrop_url : String
  pub genres : List String
  pub runtime_minutes : ℤ
  pub rating : ℕ
  pub content_rating : String
  pub added_at : String
  pub external_provider : String
  pub external_id : String

-- what the getters read of a nil item
abbrev pub empty_item : CatalogMediaItemMessage
empty_item = record {
  media_id = "";
  library_id = "";
  media_type = "";
  title = "";
  year = pos 0;
  overview = "";
  poster_url = "";
  backdrop_url = "";
  genres = [];
  runtime_minutes = pos 0;
  rating = 0;
  content_rating = "";
  added_at = "";
  external_provider = "";
  external_id = "";
}

abbrev pub or_empty_item : Option CatalogMediaItemMessage → CatalogMediaItemMessage
or_empty_item none = empty_item
or_empty_item (some item) = item

-- the item that the loop makes of one of the answer, field by field
unfoldable pub media_item : Option CatalogMediaItemMessage → CatalogMediaItem
media_item it = record {
  media_id = (or_empty_item it).media_id;
  library_id = (or_empty_item it).library_id;
  media_type = (or_empty_item it).media_type;
  title = (or_empty_item it).title;
  year = (or_empty_item it).year;
  overview = (or_empty_item it).overview;
  poster_url = (or_empty_item it).poster_url;
  backdrop_url = (or_empty_item it).backdrop_url;
  genres = (or_empty_item it).genres;
  runtime_minutes = (or_empty_item it).runtime_minutes;
  rating = (or_empty_item it).rating;
  content_rating = (or_empty_item it).content_rating;
  added_at = (or_empty_item it).added_at;
  external_provider = (or_empty_item it).external_provider;
  external_id = (or_empty_item it).external_id;
}

-- the message of the answer
pub record LibraryMediaAnswer : Type 0 where
  pub items : List (Option CatalogMediaItemMessage)
  pub next_page_token : String
  pub total_count : ℤ

pub record ListLibraryMediaResponse : Type 0 where
  pub items : List CatalogMediaItem
  pub next_page_token : String
  pub total_count : ℤ

-- the request's message, field by field
unfoldable pub media_message : ListLibraryMediaRequest → ListLibraryMediaRequestMessage
unfolding int32
media_message r = record {
  library_ids = r.library_ids;
  media_types = r.media_types;
  query = r.query;
  genre = r.genre;
  year_min = int32 r.year_min;
  year_max = int32 r.year_max;
  sort = r.sort;
  descending = r.descending;
  page_size = int32 r.page_size;
  page_token = r.page_token;
}

-- the loop over the items
unfoldable pub add_items :
    List CatalogMediaItem → List (Option CatalogMediaItemMessage) → List CatalogMediaItem
unfolding media_item
add_items out [] = out
add_items out (it ∷ items) = add_items (out ++ (media_item it ∷ [])) items

abbrev pub page_of : LibraryMediaAnswer → ListLibraryMediaResponse
page_of a = record {
  items = add_items [] a.items;
  next_page_token = a.next_page_token;
  total_count = a.total_count;
}

module _ {S E : Type 0} where
  -- An RPC's answer, made into the client's own.
  abbrev pub read_answer : {A B : Type 0} → (A → B) → S × Result E A → S × Result E B
  read_answer f (s, r) = (s, r >>= λ a. ok (f a))

  -- `ListLibraryMedia`
  unfoldable pub list_library_media :
      (ListLibraryMediaRequestMessage → S → S × Result E LibraryMediaAnswer)
      → ListLibraryMediaRequest
      → S
      → S × Result E ListLibraryMediaResponse
  unfolding media_message add_items
  list_library_media call r s = read_answer page_of (call (media_message r) s)
