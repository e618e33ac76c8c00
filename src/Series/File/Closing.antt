-- ===== src/Series/File/Closing.antt =====
-- A series file that is closed and opened again.
use time_shade_db.Prelude.{ℕ, ◌≡◌, refl, sym, ap, ◌∙◌, subst}
use time_shade_db.Prelude.{false, some, List, [], length, take, take-length}
use time_shade_db.Prelude.Int.{pos}
use time_shade_db.Prelude.Words.{IsU32}
use time_shade_db.Memstore.Series.{LogRecord}
use time_shade_db.Series.File.{LogFile, index_bytes, write_index, sync, close_file}
use time_shade_db.Series.File.Recover.{recover}
use time_shade_db.Series.File.Layout.{IsOrdered, blk_bytes, entries_at}
use time_shade_db.Series.File.Invariant.{IsFile, write_index-IsFile, write_index-written}
use time_shade_db.Series.File.Intact.{no_repair, recover-whole}

module _ (crc : List ℕ → ℕ) (crc32 : (b : List ℕ) → IsU32 (crc b)) where
  sync-IsFile :
      (f : LogFile) (recs : List LogRecord)
      → IsFile crc crc32 f recs
      → IsFile crc crc32 (sync f) recs × ((sync f).written ≡ length recs)
  unfolding sync
  sync-IsFile f recs v =
      subst (λ g. IsFile crc crc32 g recs × (g.written ≡ length recs)) (sym synced)
        (write_index-IsFile crc crc32 _ recs clean, write_index-written crc crc32 _ recs clean)
    where
      synced : sync f ≡ write_index (record f { dirty = false })
      synced = simp (sync, v.open_is) refl

      clean : IsFile crc crc32 (record f { dirty = false }) recs
      clean = record {
        open_is = v.open_is;
        blk_is = v.blk_is;
        size_is = v.size_is;
        entries_are = v.entries_are;
        written_is = v.written_is;
        idx_is = v.idx_is;
        storable = v.storable;
        ordered = v.ordered;
        fits = v.fits;
      }

  -- What `close` leaves: the two files hold all the records and all their index records.
  pub record IsClosed (f : LogFile) (recs : List LogRecord) : Type 0 where
    pub closed_is : f.opened ≡ false
    pub entries_are : f.entries ≡ []
    pub blk_is : f.blk ≡ blk_bytes crc crc32 recs
    pub idx_is : f.idx ≡ index_bytes (entries_at crc crc32 0 recs)

  close_file-IsClosed :
      (f : LogFile) (recs : List LogRecord) → IsFile crc crc32 f recs → IsClosed (close_file f) recs
  unfolding close_file
  close_file-IsClosed f recs v =
      let (w, all) = sync-IsFile f recs v in
      subst (λ g. IsClosed g recs) (sym closed)
        (record {
          closed_is = refl;
          entries_are = refl;
          blk_is = w.blk_is;
          idx_is =
              w.idx_is
              ∙ ap (λ rs. index_bytes (entries_at crc crc32 0 rs))
                  (ap (λ n. take n recs) all ∙ take-length recs);
        })
    where
      closed : close_file f ≡ record (sync f) { opened = false; entries = [] }
      closed = simp (close_file, v.open_is) refl

  -- For a checksum with values below 2^32 and an open file that holds some records: `close` leaves a
  -- closed file, with all the records in .blk and all their index records in .idx. Where no effective
  -- time of the records is negative, `recover` of these two files finds nothing to repair, and gives
  -- back the file that was closed, with all of its index written.
  pub recover-close_file :
      (f : LogFile) (recs : List LogRecord)
      → IsFile crc crc32 f recs
      → IsOrdered (some (pos 0)) recs
      → IsClosed (close_file f) recs
        × (recover crc (close_file f).blk (close_file f).idx ≡ (
          record f {
            idx = index_bytes (entries_at crc crc32 0 recs);
            written = length recs;
            dirty = false;
          },
          no_repair,
        ))
  recover-close_file f recs v positive =
      let closed = close_file-IsClosed f recs v in
      (
        closed,
        rw (closed.blk_is, closed.idx_is)
            (recover-whole crc crc32 recs v.storable v.ordered positive v.fits ∙ λ i. (
              record {
                opened = sym v.open_is i;
                blk = sym v.blk_is i;
                idx = index_bytes (entries_at crc crc32 0 recs);
                entries = sym v.entries_are i;
                size = sym v.size_is i;
                written = length recs;
                dirty = false;
              },
              no_repair,
            )),
      )
