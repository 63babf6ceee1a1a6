-- ===== src/Url.antt =====
-- src/url.hpp and src/url.cpp: how a URL is put together from parts and parsed again.
pub mod Join
pub mod Encode
pub mod Parser
pub mod Parts
pub mod Destination
use cdnalizerd.Base.{List, [], ◌∷◌, ◌++◌, Option, none, some}
use cdnalizerd.Base.Text.{Text}
use Join.{join_slashes}
use Encode.{urlencode}
use Parser.{Url, Parsed, parse}

-- `UnParsedURL`
pub record UnparsedUrl : Type 0 where
  pub parts : List Text

-- `operator/(const URL &, std::string)`
unfoldable url_div : Url → Text → UnparsedUrl
url_div url s = record { parts = url.raw ∷ urlencode s ∷ [] }

-- `operator/(UnParsedURL, std::string)`
unfoldable unparsed_div : UnparsedUrl → Text → UnparsedUrl
unparsed_div url s = record { parts = url.parts ++ urlencode s ∷ [] }

-- `URL::URL(UnParsedURL)`. `none` is the undefined behaviour of `joinSlashes`.
unfoldable pub url_of_unparsed : UnparsedUrl → Option Parsed
url_of_unparsed u = elim (join_slashes u.parts) [ none ↦ none | some raw ↦ some (parse raw) ]

-- `url / container / remote_dir / localRelativePath`, made into a URL: the address of a file, as
-- src/processes/mainProcess.cpp and src/processes/syncAllDirectories.cpp write it.
unfoldable pub destination : Url → Text → Text → Text → Option Parsed
unfolding url_div unparsed_div url_of_unparsed
destination url container remote_dir relative =
    url_of_unparsed (unparsed_div (unparsed_div (url_div url container) remote_dir) relative)
