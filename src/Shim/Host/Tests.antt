-- ===== src/Shim/Host/Tests.antt =====
-- Searches in the plug-in table, and the size of a blob.
use ttlive_cpp.Prelude.{codes}
use ttlive_cpp.Shim.Host.{named_item, mime_types}
use ttlive_cpp.Shim.Host.Laws.{IsFirst, named_item-IsFirst}

text_pdf_found :
    IsFirst
      (λ m. m.type)
      (codes "text/pdf")
      mime_types
      (named_item (λ m. m.type) (codes "text/pdf") mime_types)
text_pdf_found = named_item-IsFirst (λ m. m.type) (codes "text/pdf") mime_types
