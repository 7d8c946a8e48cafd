-- ===== src/Normalize/Profile.antt =====
-- core/normalize.rs: the normal form that a header asks for.
use mdictlib.Normalize.{KeyNormalizer}
use mdictlib.Header.Metadata.{ContainerKind, Header, is_mdd}

unfoldable pub from_header : Header → ContainerKind → KeyNormalizer
from_header header kind = record {
  case_sensitive = header.key_case_sensitive;
  strip_profile = header.strip_key;
  resource_path = is_mdd kind;
}
