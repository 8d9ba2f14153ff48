-- ===== src/Ows/Exception.antt =====
-- libs/ogc-kit/ows/exception.go. `quote` stands for the `%q` of `fmt`, `escape` for
-- `xml.EscapeText` and `encode` for `json.Encoder` on the object of a JSON exception.
pub mod Status
use giti.Prelude.{
  ℕ, Bool, true, false, ◌&&◌, ◌||◌, [], ◌∷◌, ◌++◌, text_eq, to_upper, to_lower, ◌==◌, if◌then◌else◌,
  Text, codes,
}

pub record ServiceError : Type 0 where
  pub code : Text
  pub locator : Text
  pub message : Text
  pub status : ℕ

-- What `http.ResponseWriter` has received when the handler returns.
pub record Response : Type 0 where
  pub status : ℕ
  pub content_type : Text
  pub body : Text

-- `strings.HasPrefix`
unfoldable pub has_prefix : Text → Text → Bool
has_prefix s [] = true
has_prefix [] (c ∷ p) = false
has_prefix (x ∷ s) (c ∷ p) = x == c && has_prefix s p

-- `strings.Contains`
unfoldable pub contains : Text → Text → Bool
unfolding has_prefix
contains [] p = has_prefix [] p
contains (x ∷ s) p = has_prefix (x ∷ s) p || contains s p

unfoldable pub status_of : ServiceError → ℕ
status_of e = if e.status == 0 then 400 else e.status

-- The printers of the packages that the code calls.
pub record Printers : Type 0 where
  pub quote : Text → Text
  pub escape : Text → Text
  pub encode : Text → ServiceError → Text

module _ (p : Printers) where
  unfoldable pub loc_attr : Text → Text
  unfolding text_eq
  loc_attr l = if text_eq l [] then [] else codes " locator=" ++ p.quote l

  unfoldable pub code_attr : Text → Text
  unfolding text_eq
  code_attr c = if text_eq c [] then [] else codes " code=" ++ p.quote c

  unfoldable pub service_exception : Text → ServiceError → Text
  unfolding loc_attr code_attr
  service_exception head e =
      head
      ++ (codes "  <ServiceException"
          ++ (code_attr e.code
              ++ (loc_attr e.locator
                  ++ (codes ">"
                      ++ (p.escape e.message
                          ++ codes "</ServiceException>\n</ServiceExceptionReport>\n")))))

  unfoldable pub write_wms111 : ServiceError → Response
  unfolding service_exception
  write_wms111 e = record {
    status = 200;
    content_type = codes "application/vnd.ogc.se_xml";
    body =
        service_exception
          (codes
            "<?xml version=\"1.0\" encoding=\"UTF-8\" standalone=\"no\"?>\n<!DOCTYPE ServiceExceptionReport SYSTEM \"http://schemas.opengis.net/wms/1.1.1/WMS_exception_1_1_1.dtd\">\n<ServiceExceptionReport version=\"1.1.1\">\n")
          e;
  }

  unfoldable pub write_wms130 : ServiceError → Response
  unfolding service_exception
  write_wms130 e = record {
    status = 200;
    content_type = codes "text/xml";
    body =
        service_exception
          (codes
            "<?xml version=\"1.0\" encoding=\"UTF-8\" standalone=\"no\"?>\n<ServiceExceptionReport version=\"1.3.0\" xmlns=\"http://www.opengis.net/ogc\" xmlns:xsi=\"http://www.w3.org/2001/XMLSchema-instance\" xsi:schemaLocation=\"http://www.opengis.net/ogc http://schemas.opengis.net/wms/1.3.0/exceptions_1_3_0.xsd\">\n")
          e;
  }

  unfoldable pub write_ogc120 : ServiceError → Response
  unfolding service_exception
  write_ogc120 e = record {
    status = 200;
    content_type = codes "text/xml";
    body =
        service_exception
          (codes
            "<?xml version=\"1.0\" encoding=\"UTF-8\"?>\n<ServiceExceptionReport version=\"1.2.0\" xmlns=\"http://www.opengis.net/ogc\" xmlns:xsi=\"http://www.w3.org/2001/XMLSchema-instance\" xsi:schemaLocation=\"http://www.opengis.net/ogc http://schemas.opengis.net/wfs/1.0.0/OGC-exception.xsd\">\n")
          e;
  }

  unfoldable pub ows_exception : Text → ServiceError → Text
  unfolding loc_attr
  ows_exception head e =
      codes "<?xml version=\"1.0\" encoding=\"UTF-8\"?>\n"
      ++ (head
          ++ (codes ">\n  <ows:Exception exceptionCode="
              ++ (p.quote e.code
                  ++ (loc_attr e.locator
                      ++ (codes ">\n    <ows:ExceptionText>"
                          ++ (p.escape e.message
                              ++ codes
                                  "</ows:ExceptionText>\n  </ows:Exception>\n</ows:ExceptionReport>\n"))))))

  unfoldable pub write_ows10 : ServiceError → Response
  unfolding ows_exception status_of
  write_ows10 e = record {
    status = status_of e;
    content_type = codes "application/xml";
    body =
        ows_exception
          (codes "<ows:ExceptionReport xmlns:ows=\"http://www.opengis.net/ows\" version=\"1.0.0\"")
          e;
  }

  unfoldable pub write_ows11 : Text → ServiceError → Response
  unfolding ows_exception status_of
  write_ows11 version e = record {
    status = status_of e;
    content_type = codes "application/xml";
    body =
        ows_exception
          (codes "<ows:ExceptionReport xmlns:ows=\"http://www.opengis.net/ows/1.1\" version="
            ++ p.quote version)
          e;
  }

  unfoldable pub write_json_exception : Text → ServiceError → Response
  unfolding status_of
  write_json_exception version e = record {
    status = status_of e;
    content_type = codes "application/json";
    body = p.encode version e;
  }

  unfoldable pub write_report : Text → Text → ServiceError → Response
  unfolding text_eq has_prefix
  write_report service version e =
      if text_eq service (codes "WMS") && text_eq version (codes "1.3.0")
      then write_wms130 e
      else if text_eq service (codes "WMS")
      then write_wms111 e
      else if text_eq service (codes "WFS") && text_eq version (codes "1.0.0")
      then write_ogc120 e
      else if text_eq service (codes "WFS") && has_prefix version (codes "2.")
      then write_ows11 (codes "2.0.0") e
      else if text_eq service (codes "WFS")
      then write_ows10 e
      else write_ows11 (codes "1.1.0") e

  unfoldable pub write_exception : Text → Text → Text → ServiceError → Response
  unfolding contains to_lower to_upper write_report
  write_exception service version exceptions_param e =
      if contains (to_lower exceptions_param) (codes "json")
      then write_json_exception version e
      else write_report (to_upper service) version e
