-- ===== src/Connection/Request/Samples.antt =====
-- A printed request and a body, for the tests.
use httpoll.Prelude.{refl, codes, arith}
use httpoll.Version.{HttpVersion, http_version_to_string}
use httpoll.HeaderParser.FirstLine.{post}
use httpoll.HeaderParser.StoredFields.{Field}
use httpoll.HeaderParser.Samples.{no_bytes}
use httpoll.HeaderParser.FieldSamples.{accept-IsField}
use httpoll.Connection.{pop_line}
use httpoll.Connection.Request.Printed.{IsPrinted, IsPrintedLine}
use httpoll.Connection.Request.Upload.{IsSegment}

abbrev pub accept : Field
accept = record { name = codes "Accept"; blanks = codes " "; value = codes "my.server" }

pub accept-IsPrinted : IsPrinted accept
accept-IsPrinted = record {
  is_field = accept-IsField;
  bytes = omega arith;
  no_cr = ground arith;
  small = omega arith;
}

pub post-IsPrintedLine :
    IsPrintedLine 100 no_bytes post (codes " ") (codes "/a") HttpVersion.http_1_1
unfolding http_version_to_string
post-IsPrintedLine = record {
  is_request = record {
    past_bytes = λ k. omega arith;
    bytes = omega arith;
    are_blank = ground arith;
    uri_some = λ e. cc;
    uri_whole = ground arith;
    known = λ e. cc;
  };
  no_cr = ground arith;
  small = omega arith;
}

pub bo-IsSegment : IsSegment (codes "bo")
unfolding pop_line
bo-IsSegment = (omega arith, omega arith, refl)

pub dy-IsSegment : IsSegment (codes "dy")
unfolding pop_line
dy-IsSegment = (omega arith, omega arith, refl)
