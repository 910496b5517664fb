-- ===== src/Mime.antt =====
-- common/MineMap.h: the media type of a file, by its extension.
pub mod Letters
use cdfs.Base.{Option, none, some, List, [], ◌∷◌, map, Bytes, codes, Dict, lookup}
use cdfs.Paths.{extension}
use cdfs.Crypto.{tolower}

unfoldable pub mime_map : Dict Bytes
mime_map =
    (codes ".jpg", codes "image/jpeg")
    ∷ (codes ".jpeg", codes "image/jpeg")
    ∷ (codes ".png", codes "image/png")
    ∷ (codes ".gif", codes "image/gif")
    ∷ (codes ".bmp", codes "image/bmp")
    ∷ (codes ".webp", codes "image/webp")
    ∷ (codes ".svg", codes "image/svg+xml")
    ∷ (codes ".ico", codes "image/x-icon")
    ∷ (codes ".html", codes "text/html")
    ∷ (codes ".htm", codes "text/html")
    ∷ (codes ".css", codes "text/css")
    ∷ (codes ".js", codes "application/javascript")
    ∷ (codes ".json", codes "application/json")
    ∷ (codes ".txt", codes "text/plain")
    ∷ (codes ".md", codes "text/markdown")
    ∷ (codes ".woff", codes "font/woff")
    ∷ (codes ".woff2", codes "font/woff2")
    ∷ (codes ".ttf", codes "font/ttf")
    ∷ (codes ".pdf", codes "application/pdf")
    ∷ (codes ".zip", codes "application/zip")
    ∷ (codes ".gz", codes "application/gzip")
    ∷ (codes ".mp4", codes "video/mp4")
    ∷ (codes ".mp3", codes "audio/mpeg")
    ∷ (codes ".wav", codes "audio/wav")
    ∷ []

unfoldable pub get_mime_type : Bytes → Bytes
get_mime_type file_path = elim (lookup (map tolower (extension file_path)) mime_map) [
  | some media_type ↦ media_type
  | none ↦ codes "application/octet-stream"
]
