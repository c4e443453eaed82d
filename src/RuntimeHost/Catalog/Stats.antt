-- ===== src/RuntimeHost/Catalog/Stats.antt =====
-- GetCatalogStats and ResolveCatalogImageURLs of client.go. The host's calls are parameters; the
-- numbers of an answer are int32 values, which an `int` holds.
use bloem_plugin_sdk.Base.{String, Option, none, some, List, [], ◌∷◌, ◌++◌, Result, ok}
use bloem_plugin_sdk.Base.Int.{ℤ, pos}
use bloem_plugin_sdk.RuntimeHost.Catalog.{read_answer}

pub record CatalogTypeCount : Type 0 where
  pub media_type : String
  pub count : ℤ

pub record CatalogLibraryCount : Type 0 where
  pub library_id : String
  pub library_name : String
  pub media_type : String
  pub count : ℤ

-- one count, as the message has it
pub record CatalogTypeCountMessage : Type 0 where
  pub media_type : String
  pub count : ℤ

abbrev pub or_empty_type_count : Option CatalogTypeCountMessage → CatalogTypeCountMessage
or_empty_type_count none = record { media_type = ""; count = pos 0 }
or_empty_type_count (some c) = c

-- the count that the loop makes of it, field by field
unfoldable pub type_count : Option CatalogTypeCountMessage → CatalogTypeCount
type_count c = record {
  media_type = (or_empty_type_count c).media_type;
  count = (or_empty_type_count c).count;
}

-- one count, as the message has it
pub record CatalogLibraryCountMessage : Type 0 where
  pub library_id : String
  pub library_name : String
  pub media_type : String
  pub count : ℤ

abbrev pub or_empty_library_count : Option CatalogLibraryCountMessage → CatalogLibraryCountMessage
or_empty_library_count none = record {
  library_id = "";
  library_name = "";
  media_type = "";
  count = pos 0;
}
or_empty_library_count (some c) = c

-- the count that the loop makes of it, field by field
unfoldable pub library_count : Option CatalogLibraryCountMessage → CatalogLibraryCount
library_count c = record {
  library_id = (or_empty_library_count c).library_id;
  library_name = (or_empty_library_count c).library_name;
  media_type = (or_empty_library_count c).media_type;
  count = (or_empty_library_count c).count;
}

-- the message of the answer
pub record CatalogStatsAnswer : Type 0 where
  pub total_items : ℤ
  pub media_type_counts : List (Option CatalogTypeCountMessage)
  pub library_counts : List (Option CatalogLibraryCountMessage)

pub record CatalogStats : Type 0 where
  pub total_items : ℤ
  pub media_type_counts : List CatalogTypeCount
  pub library_counts : List CatalogLibraryCount

-- the two loops
unfoldable pub add_type_counts :
    List CatalogTypeCount → List (Option CatalogTypeCountMessage) → List CatalogTypeCount
unfolding type_count
add_type_counts out [] = out
add_type_counts out (c ∷ cs) = add_type_counts (out ++ (type_count c ∷ [])) cs

unfoldable pub add_library_counts :
    List CatalogLibraryCount → List (Option CatalogLibraryCountMessage) → List CatalogLibraryCount
unfolding library_count
add_library_counts out [] = out
add_library_counts out (c ∷ cs) = add_library_counts (out ++ (library_count c ∷ [])) cs

abbrev pub stats_of : CatalogStatsAnswer → CatalogStats
stats_of a = record {
  total_items = a.total_items;
  media_type_counts = add_type_counts [] a.media_type_counts;
  library_counts = add_library_counts [] a.library_counts;
}

module _ {S E : Type 0} where
  -- `GetCatalogStats`
  unfoldable pub get_catalog_stats :
      (List String → S → S × Result E CatalogStatsAnswer)
      → List String
      → S
      → S × Result E CatalogStats
  unfolding add_type_counts add_library_counts
  get_catalog_stats call library_ids s = read_answer stats_of (call library_ids s)

  -- `ResolveCatalogImageURLs`
  unfoldable pub resolve_catalog_image_urls :
      (List String → String → S → S × Result E (List (String × String)))
      → List String
      → String
      → S
      → S × Result E (List (String × String))
  resolve_catalog_image_urls call [] variant s = (s, ok [])
  resolve_catalog_image_urls call (p ∷ ps) variant s = call (p ∷ ps) variant s
