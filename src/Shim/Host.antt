-- ===== src/Shim/Host.antt =====
-- The constant parts of the fake browser in js/hybrid-fake-dom.js that its methods search or
-- compute with: the plug-in and MIME type tables, the page's timing, and blobs.
pub mod Laws
mod Tests
use ttlive_cpp.Prelude.{
  ℕ, zero, suc, ◌+◌, ◌-◌, List, [], ◌∷◌, ◌++◌, Option, none, some, if◌then◌else◌, codes, get_elem?,
  Bool, true, false,
}
use ttlive_cpp.Js.Text.{Text, same}

pub record Plugin : Type 0 where
  pub name : Text
  pub filename : Text
  pub description : Text

abbrev viewer : Text → Plugin
viewer name = record { name = name; filename = codes "internal-pdf-viewer"; description = [] }

abbrev pub plugins : List Plugin
plugins =
    record {
      name = codes "PDF Viewer";
      filename = codes "internal-pdf-viewer";
      description = codes "Portable Document Format";
    }
    ∷ viewer (codes "Chrome PDF Viewer")
    ∷ viewer (codes "Chromium PDF Viewer")
    ∷ viewer (codes "Microsoft Edge PDF Viewer")
    ∷ viewer (codes "WebKit built-in PDF")
    ∷ []

pub record MimeType : Type 0 where
  pub type : Text
  pub suffixes : Text
  pub description : Text

abbrev pub mime_types : List MimeType
mime_types =
    record {
      type = codes "application/pdf";
      suffixes = codes "pdf";
      description = codes "Portable Document Format";
    }
    ∷ record { type = codes "text/pdf"; suffixes = codes "pdf"; description = [] }
    ∷ []

-- The loop of `namedItem` over entries that have a name.
unfoldable pub named_item {ℓ} : {A : Type ℓ} → (A → Text) → Text → List A → Option A
named_item name_of n [] = none
named_item name_of n (x ∷ xs) = if same (name_of x) n then some x else named_item name_of n xs

unfoldable pub plugin_named : Text → Option Plugin
unfolding named_item same
plugin_named n = named_item (λ p. p.name) n plugins

unfoldable pub mime_type_named : Text → Option MimeType
unfolding named_item same
mime_type_named n = named_item (λ m. m.type) n mime_types

-- `item(i)`: past the end the property is missing.
abbrev pub plugin_item : ℕ → Option Plugin
plugin_item i = get_elem? plugins i

-- `fakePerformance.timing` of a page whose script started at `start`; 0 stands for an event that
-- did not take place.
pub record Timing : Type 0 where
  pub navigation_start : ℕ
  pub fetch_start : ℕ
  pub domain_lookup_start : ℕ
  pub domain_lookup_end : ℕ
  pub connect_start : ℕ
  pub connect_end : ℕ
  pub request_start : ℕ
  pub response_start : ℕ
  pub response_end : ℕ
  pub dom_loading : ℕ
  pub dom_interactive : ℕ
  pub dom_content_loaded_event_start : ℕ
  pub dom_content_loaded_event_end : ℕ
  pub dom_complete : ℕ
  pub load_event_start : ℕ
  pub load_event_end : ℕ

unfoldable pub timing : ℕ → Timing
timing start = record {
  navigation_start = start;
  fetch_start = start;
  domain_lookup_start = start;
  domain_lookup_end = start;
  connect_start = start;
  connect_end = start;
  request_start = start;
  response_start = start + 50;
  response_end = start + 100;
  dom_loading = start + 100;
  dom_interactive = start + 200;
  dom_content_loaded_event_start = start + 200;
  dom_content_loaded_event_end = start + 200;
  dom_complete = start + 300;
  load_event_start = start + 300;
  load_event_end = start + 300;
}

-- `performance.now()` when the clock shows `date`, which is not before the start.
unfoldable pub now : ℕ → ℕ → ℕ
now start date = date - start

-- What `FakeBlob` is built from: a text, something with a `byteLength`, something with a `size`,
-- or anything else.
pub data Part : Type 0 where
  string : Text → Part
  bytes sized : ℕ → Part
  other : Part

pub record Blob : Type 0 where
  pub size : ℕ
  pub type : Text

unfoldable pub length_of_text : Text → ℕ
length_of_text [] = 0
length_of_text (c ∷ s) = suc (length_of_text s)

abbrev pub part_size : Part → ℕ
part_size (string s) = length_of_text s
part_size (bytes n) = n
part_size (sized n) = n
part_size other = 0

unfoldable pub add_sizes : ℕ → List Part → ℕ
add_sizes acc [] = acc
add_sizes acc (p ∷ ps) = add_sizes (acc + part_size p) ps

-- `(opts && opts.type) || ''`
abbrev type_or_empty : Option Text → Text
type_or_empty none = []
type_or_empty (some t) = t

unfoldable pub new_blob : List Part → Option Text → Blob
new_blob parts type = record { size = add_sizes 0 parts; type = type_or_empty type }

-- `slice` takes no account of its arguments.
unfoldable pub slice : Blob → Blob
unfolding new_blob
slice b = new_blob [] (some b.type)
