-- ===== src/Encoding/Labels.antt =====
-- format/common/encoding.rs: the encodings that a header selects.
use mdictlib.Prelude.{◌||◌, Option, none, some, if◌then◌else◌}
use mdictlib.Error.{Result, ok, err, unsupported, ◌>>=◌}
use mdictlib.Descriptors.{Text}
use mdictlib.CaseVariants.{eq_ignore_ascii_case}
use mdictlib.Texts.{codes, trim}
use mdictlib.Encoding.{TextEncoding, utf8, utf16_le, gbk, gb18030, big5}
use mdictlib.Header.Metadata.{ContainerKind, mdx, mdd, Header}

-- `label.unwrap_or("UTF-8").trim()`
unfoldable pub declared_label : Option Text → Text
declared_label none = trim (codes "UTF-8")
declared_label (some label) = trim label

unfoldable pub from_label : Option Text → Result TextEncoding
from_label declared =
    let label = declared_label declared in
    if eq_ignore_ascii_case label (codes "UTF-8") || eq_ignore_ascii_case label (codes "UTF8")
    then ok utf8
    else if eq_ignore_ascii_case label (codes "UTF-16")
        || (eq_ignore_ascii_case label (codes "UTF-16LE")
            || eq_ignore_ascii_case label (codes "UTF16"))
    then ok utf16_le
    else if eq_ignore_ascii_case label (codes "GBK") || eq_ignore_ascii_case label (codes "GB2312")
    then ok gbk
    else if eq_ignore_ascii_case label (codes "GB18030")
    then ok gb18030
    else if eq_ignore_ascii_case label (codes "BIG5")
    then ok big5
    else if eq_ignore_ascii_case label (codes "ISO8859-1")
        || (eq_ignore_ascii_case label (codes "ISO-8859-1")
            || eq_ignore_ascii_case label (codes "LATIN1"))
    then err (unsupported "ISO8859-1 text encoding (MDict byte semantics unresolved)")
    else err (unsupported "text encoding")

unfoldable pub for_keys : ContainerKind → Header → Result TextEncoding
for_keys mdd header = ok utf16_le
for_keys mdx header = from_label header.encoding_label

unfoldable pub for_records : ContainerKind → Header → Result (Option TextEncoding)
for_records mdd header = ok none
for_records mdx header = do encoding ← from_label header.encoding_label; ok (some encoding)
