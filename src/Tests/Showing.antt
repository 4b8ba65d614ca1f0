-- ===== src/Tests/Showing.antt =====
-- The list of repositories that the author of the example sees.
use gitclub.Base.{[], Str, Option, none, some}
use gitclub.Schema.{Repo}
use gitclub.Listing.{Query}
use gitclub.Tests.Example.{oid_head}

abbrev everything : Query
everything = record { group = none; q = []; owner = [] }

-- A push has moved the default branch.
abbrev observed : Repo → Option Str
observed r = some oid_head
